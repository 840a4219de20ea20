-- ===== src/Lib.antt =====
-- OIG proxy: a proxy between a home energy box and the cloud of its maker, with a local control
-- over MQTT. Paths are from the repository's root; `addon/oig-proxy/` is left out of those below.
--
-- The parts, and how they work together. The box sends frames (protocol/) over TCP; the server
-- (proxy/server.py) cuts them out of its buffer and passes them on to the cloud, or answers them
-- itself (proxy/local_ack.py) while the mode manager (proxy/mode.py) says that the cloud is not to
-- be tried. A setting that arrives over MQTT is checked (settings_constraints.py), put into the
-- queue (twin/state.py) and delivered to the box in the answer to a frame (twin/delivery.py), which
-- also follows the settings that the cloud sends. The handler of control messages (twin/handler.py)
-- is the only one that puts settings into the queue, and the server the only one that takes them
-- out. Every step of a setting's life is recorded (telemetry/settings_audit.py). The values of the
-- frames go through the processor (sensor/) to the client of MQTT (mqtt/client.py), which describes
-- the sensors and the controls to Home Assistant; the callbacks of main.py join the two with the id
-- of the box (device_id.py). The collector (telemetry/collector.py) counts what passes, and a client
-- of its own (telemetry/client.py) sends that on, with a buffer for the times without a broker.
--
-- The files.
--   Common        lists, texts (lists of code points), decimals, dictionaries, tests on numbers
--   Values        the values of settings, and the interface `Floats` to Python's floats
--   Mode          proxy/mode.py, class ModeManager: one function for each method, the state as a
--                 record; `step` and `run` are sequences of calls
--   Constraints   settings_constraints.py
--   Audit         telemetry/settings_audit.py: Steps (steps and results), Limits (the cut of raw
--                 texts and its tracking), Records (redaction and the makers of records)
--   Queue         twin/state.py, class TwinQueue
--   Delivery      twin/delivery.py, class TwinDelivery: State (the state and the audit steps), Cloud
--                 (the collections of cloud settings), Follow (the life of a cloud setting), Local
--                 (the settings of the queue), Counters (the id counters), Steps (sequences of calls)
--   Frame         protocol/crc.py, protocol/frame.py, protocol/frames.py, proxy/local_ack.py and
--                 `build_setting_xml` of twin/delivery.py; Parse is protocol/parser.py, Ack is
--                 twin/ack_parser.py, and CzechTime the civil time of protocol/frames.py
--   Handler       twin/handler.py, class TwinControlHandler
--   Server        proxy/server.py, class ProxyServer: Frames (what is read out of a frame), State,
--                 Acks (`_handle_twin_frames`), Box (`_pipe_box_to_cloud`, `_pipe_box_offline`), Cloud
--                 (`_pipe_cloud_to_box`), Connections (`_handle_box_connection` around the pipes)
--   System        the queue, the delivery and the handler, wired as in main.py
--   Dns           proxy/dns_resolve.py: the query for the cloud's address and the reading of the answer
--   Telemetry     telemetry/collector.py: the counters of responses, and Windows, the windows and the
--                 buffer of log entries; Buffer, Payloads and Client are telemetry/client.py,
--                 classes TelemetryBuffer and TelemetryClient
--   Mqtt          mqtt/client.py, class MQTTClient: Topics (`_topic_matches`, `_on_message`), Entities
--                 (what an entity is made of) and Discovery (`send_discovery`)
--   Sensors       sensor/loader.py and sensor/warnings.py; Fields and Processor are
--                 sensor/processor.py, class FrameProcessor
--   App           the callbacks of main.py, class ProxyApp, with device_id.py and `record_frame` of
--                 mqtt/status.py
--   Tests         concrete values, and the theorems applied to them
-- The other modules under a part hold its lemmas and theorems.
--
-- How the code is modelled. A method that changes its object takes the state and returns it, with
-- its result. Readings of a clock and random numbers are arguments; `Delivery` draws those of its
-- audit records from a supply, one after another. Times are natural numbers of any fixed unit
-- (seconds where the source takes `int(time.time())`), so a difference of times is compared with
-- the subtrahend on the other side, which is what the source means as long as the thresholds and
-- timeouts of the configuration are not negative. Dictionaries keep the order of insertion, as
-- Python's do. An object of `_cloud_pending` has a number for its identity, since a change of its
-- fields is seen wherever it is held; `deque.remove` takes the first object with the same fields,
-- and what it leaves differs from what the removal of the object itself leaves in the identity of
-- objects with equal fields only. The message and set ids that come from outside are integers.
-- Frames are lists of bytes, and the numbers in them are runs of ASCII digits; the decoding of bytes
-- as UTF-8 and `int` of a text are parameters of the server. What one frame finds on the clocks and
-- whether its writes succeed is a record, `Readings`; each read of a connection has one for every
-- frame in it. Each pipe of the server is a function of its reads, and the state it keeps with the
-- other pipe is passed through it; a frame is handled as one step. The records that are handed to the telemetry collector, and the transitions that
-- the mode manager reports, are lists, the last first. A flag says whether the collaborator is set.
--
-- Loops. All but two follow a list or a count. The loop that takes frames from a buffer and the one
-- that skips a name in a DNS response run on fuel: as much as there are bytes is enough, since a
-- frame takes eight bytes at least and a label one.
--
-- Floats are a parameter: their operations are fields of `Floats`, and `ExactComparison` says that
-- Python compares an integral float with an integer as the integer it is.
--
-- Libraries. The client of MQTT and that of telemetry hand their publications to paho; the model
-- keeps them in a list, and paho is the function from the place of a publication to its answer. The
-- templates of Home Assistant are kept by what is put into them, and JSON is not written out. SQLite
-- is a parameter by the orders in which it reads rows, and by the statements that fail: a call of the
-- buffer says which of its own do, as the source tells nobody of an error there.
--
-- Not modelled: logging, the capture of frames, sockets, tasks and files, which appear as readings or
-- not at all; the lock of the mode manager, since each operation is one step; `lower` and `casefold`
-- outside of ASCII, but for the two letters that the search for sensitive keys takes for ASCII ones;
-- the rendering of timestamps and the date of an epoch, which are parameters of the setting frames;
-- the payload of the proxy's own status, whose publications are only counted; the reading of the
-- configuration; of the collector the sessions, the events and the report of a window.
pub mod Common
pub mod Mode
pub mod Values
pub mod Constraints
pub mod Audit
pub mod Queue
pub mod Delivery
pub mod Frame
pub mod Dns
pub mod Handler
pub mod Server
pub mod System
pub mod Telemetry
pub mod Mqtt
pub mod Sensors
pub mod App
mod Tests
