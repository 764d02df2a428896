-- ===== src/Lib.antt =====
-- AGHAST, a home automation server: its message core and its integrations.
--
-- The parts and how they interact. The server (server/integrationManager.go) makes the integrations
-- that the configuration names, starts each with the connection to the MQTT broker (mqtt/mqtt.go),
-- and stops or reloads them on request. An integration subscribes to topics, gets the messages of
-- each on a channel, and sends messages on two channels that goroutines of the connection empty
-- towards the broker. The automations (integrations/automation/automation.go) listen to event topics,
-- test conditions and send their actions; others feed them: the clock and its alerts
-- (integrations/time/time.go), the checks of hosts (integrations/hostchecker/hostchecker.go), the
-- cache of messages (integrations/mqttcache/mqttcache.go), the periodic sender
-- (integrations/mqttsender/mqttsender.go) and the scraper of web pages
-- (integrations/scraper/scraper.go). Three log what comes by (integrations/datalogger, influx and
-- postgres), one sends mails (integrations/mqtt2smtp/mqtt2smtp.go), and one commands lamps and sockets
-- (integrations/tuya/tuya.go). The event manager (events/events.go) is the older way to pass events
-- inside the program.
--
-- Which file models what. A function keeps the name of the Go function, in lower case with
-- underscores.
--   Base         Boolean tests, lists, Go maps, texts, 64-bit integers and their decimals, UTF-8, and
--                the ways a Go function ends (`Outcome`): it returns, panics, exits, or waits for ever
--   Runtime      dynamic values with their type assertions; floating-point numbers and JSON as
--                parameters
--   Config       config/config.go: the check of the main configuration, the rewriting of the line
--                Enabled of an automation's file, in Preprocess the substitution of secrets and
--                constants, and in Main the loading of the main configuration
--   Server       server/integrationManager.go: the record `Server` of the package's variables, and
--                the calls that are made of numbered instances; how an instance takes LoadConfig,
--                Start and Stop is an argument, since it differs from one integration to another: the
--                Stop of the automations can wait for ever, that of Postgres panics without a
--                connection, and the Start of Tuya ends the program
--   AghastServer cmd/aghastServer/aghastServer.go: the main program up to the listening server
--   Events       events/events.go; its state is the record `State` of the package's variables, with
--                get_subscriber_id, subscribe, unsubscribe and the rounds of eventManager
--   Mqtt         mqtt/mqtt.go; the record `Mqtt` holds the map of subscribers, the channels and the
--                calls made of the paho client
--   Automation   integrations/automation/automation.go: Testing is testCondition, Actions one event
--                of waitForMqttEvent, Load the body of LoadConfig, Control the manager with Start,
--                Stop and monitorMqtt
--   MqttCache, MqttSender, HostChecker, Time, Scraper, Mqtt2smtp
--                the integrations of these names
--   Loggers      what the three loggers have in common: the value in a message, and a goroutine with
--                its subscription for each table; Datalogger, Influx and Postgres are the rest
--   Tuya         integrations/tuya/tuya.go: Clients is monitorClients, Actions monitorActions, and
--                Status reads and publishes the status of a device
--   Goroutines   the stop channels that most integrations keep in the same way
-- Children of a module hold its theorems and are named for what they prove; Tests holds the
-- examples.
--
-- Conventions and bounds. A Go map is an association list, and a loop over a map takes the order as
-- given; where the order matters, theorems quantify over it. A channel is a number and the list of
-- the messages that wait in it, with the capacity of the source (100 for subscribers and for the
-- two outbound channels); a send on a full one waits. Machine integers that can wrap are written
-- with their wrap-around (Base.Int). Loops without end, the goroutines, are one round each, or as many
-- as there are ticks or messages given. The digits of a number are written on fuel, one more than the
-- number, which is enough since a tenth of a positive number is less than it; no other function runs
-- on fuel. A stop channel is taken by the goroutine that listens to it, if one does.
--
-- What is not modelled. Locks and data races: a round of a goroutine is one step, except that
-- unlocking a mutex that is not locked ends the program in Tuya. The logging and the page of the
-- server; the paho client, the databases, the mail server, the scraping library and the cloud of Tuya,
-- TOML, JSON, dialling and the times of the sun, which are parameters, arguments or lists of what is
-- asked of them; the version flag and the signals of cmd/aghastServer.
pub mod Base
pub mod Events
pub mod Datalogger
pub mod Goroutines
pub mod Influx
pub mod Loggers
pub mod Postgres
pub mod Mqtt
pub mod Mqtt2smtp
pub mod Runtime
pub mod Config
pub mod AghastServer
pub mod Automation
pub mod MqttCache
pub mod MqttSender
pub mod HostChecker
pub mod Scraper
pub mod Server
pub mod Time
pub mod Tuya
