-- ===== src/AghastServer/Running.antt =====
-- From the configuration to the running server.
use aghast.Base.{List, string_comparable}
use aghast.Mqtt.{Mqtt}
use aghast.Server.{Server}
