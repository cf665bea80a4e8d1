-- ===== src/Lib.antt =====
-- Labelfab prints labels on a Phomemo D30: an agent takes jobs from a broker or a directory, spools
-- them in SQLite, renders their labels, joins them into strips and sends the strips as raster frames
-- to the printer, whose status frames it reads back. This library models the agent's core and the
-- wire protocol.
--
-- The parts, from the job to the wire and back:
--   Contract            src/labelfab/contract/models.py: jobs, labels, results, unit conversion.
--   Contract.Elements   the elements of a label and the boxes that hold them.
--   Agent.Config        src/labelfab/agent/config.py: the sections that the agent reads, their checks,
--                       the topics, and the broker's password from a credential.
--   Agent.Spool         src/labelfab/agent/spool.py: `Spool`, its tables as lists of rows; each method
--                       is a function of the spool (`try_insert`, `finish`, `label_printed`).
--   Agent.Coalescer     src/labelfab/agent/coalescer.py: `Coalescer`, the strip that is waiting.
--   Agent.Snapshot      src/labelfab/agent/device_state.py: `DeviceSnapshot`, what is remembered of the
--                       printer, and the published status.
--   Agent.World         src/labelfab/agent/worker.py: the fields of `PrintWorker` as a record `World`,
--                       the environment that it is given, and a monad of changes that may raise.
--   Agent.Sending       `_send`: the retries of one frame.
--   Agent.Accounting    `_JobAcc`, `_credit_copy`, `_finalize`, `_stall`.
--   Agent.Printing      `_print_strip`, `_flush`, `_run_discrete`.
--   Agent.Submit        `submit`: which labels are queued, and how they reach the printer.
--   Agent.Source        src/labelfab/agent/source_mqtt.py: what a delivered message does to the spool,
--                       the print queue, the results and the acknowledgements.
--   Agent.Loop          `tick`, `retry_queued`, `recover`, `probe_device`.
--   Agent.Source.Status the status topic, its will, and connections that come and go.
--   Agent.Directory     src/labelfab/agent/source_dir.py: the poll of the directory.
--   Agent.Main          src/labelfab/agent/__main__.py: the print loop as a relation `Step` on where the
--                       loop stands (`Phase`) and the agent: the test of the stop, the taking of an item,
--                       the work on it and the last flush are steps, between which deliveries and
--                       signals come.
--   Agent.Main.Factory  `make_printer_factory`: which link a configuration opens, and with what.
--   Device.Protocol, Device.Commands, Device.Session, Device.Framing
--                       src/labelfab/device/protocol.py: commands, the connect-time sequence, the
--                       preamble of a frame; `print_header` of src/labelfab/device/escpos.py.
--   Device.Decode       src/labelfab/device/decode.py: the frames of a capture.
--   Device.Tags, Device.Parser, Device.State
--                       src/labelfab/device/responses.py: the tag table, the incremental parser, what
--                       a connection has told.
--   Device.Feedback     src/labelfab/device/feedback.py: acknowledgements and frames.
--   Device.Driver       src/labelfab/device/d30.py: `connect`, `refresh_telemetry`, `print_raster`.
--   Device.Transport    `FakeTransport` of src/labelfab/device/transport.py, the link that the driver
--                       writes to, which may break after a number of bytes.
--   Device.Waits        `_await_completion` of src/labelfab/device/d30.py, in units of 1/60900 s, in
--                       which a line of the head and a round of the poll are exact.
--   Device.Patterns     its `self_test` and `head_width_probe`, over a pencil that is a parameter.
--   Device.Rfcomm       src/labelfab/device/_rfcomm.py: the address of a peer, the connect.
--   Device.Sockets      `AFBluetoothTransport` of src/labelfab/device/transport.py.
--   Device.Ble          src/labelfab/device/ble.py: `BleTransport`.
--   Device.Errors, Device.Raster
--                       src/labelfab/device/errors.py, and the packed bitmap of
--                       src/labelfab/render/raster.py.
--   Render              `concat_strip` of src/labelfab/render/raster.py, as where labels and cut marks
--                       stand in the strip.
--   Render.Compose      `compose` and `compose_portrait`, over drawables that are parameters.
--   Render.Device       `to_bilevel`, `to_device`: the dots of a strip's frame.
--   Render.Presets      src/labelfab/render/presets.py: the trees that a label's values make.
--   Render.Job          src/labelfab/render/__init__.py: `render_label`, `render_job`.
--   Render.Layout       src/labelfab/render/layout.py: `_distribute`, and `BoxLayout` as the rectangles
--                       that it gives its children.
--   Render.Text, Render.Text.Fonts
--                       src/labelfab/render/elements.py: `_wrap`, and `TextDraw` over fonts that are
--                       parameters.
--   Render.Vertical, Render.Vertical.Stock
--                       src/labelfab/render/vertical.py: `scaled_qr`, `smart_cut`, `fit_line`;
--                       `VerticalStockItem` and `stock_item_vertical`.
--   Cli.Build, Cli.Preview, Cli.Probe
--                       src/labelfab/cli.py: `_build`; `_ansi`, a picture on the terminal; `cmd_probe`
--                       over the fake transport.
--   Common              lists, dictionaries, results, Boolean tests; Tests: the theorems at concrete
--                       inputs.
-- A child module of a part holds its theorems. The worker calls the spool and the coalescer as
-- functions on fields of `World`; it meets the driver only through `Attempt`: the error of the
-- connection, the error of the frame, and the feedback. The renderer and the rasters are functions of
-- the environment that return or raise.
--
-- Numbers are native. A length is a whole number of 1/101500 mm, in which a pixel and a hundredth of
-- a millimetre are exact; a time is in milliseconds, a voltage in hundredths of a volt. A clock
-- reading is an argument, or in the worker the next reading of the environment's clock. A size of type
-- or a weight of an element is in hundredths. The loop of
-- `feed` runs on fuel, one round more than the buffer has bytes: each round that goes on consumes a
-- byte, so that is enough. The loop over the chunks of a raster runs on as many rounds as there are
-- bytes, for the same reason, and the wait for a completion frame on one round more than there are
-- whole polls in its budget, since each round that goes on waits for a poll or up to the budget. All
-- other loops are structural.
--
-- Not modelled: Pillow, the QR and barcode libraries and the drawing of an element (drawables, pixel
-- operations and the worker's renderer are parameters), JSON, the reading of settings, SQLite's
-- locking and durability, the serial transport, the threads, event loops and timeouts of the others,
-- the MQTT client and the file system, most of the command line, logging and the texts of messages.
pub mod Common
pub mod Contract
pub mod Device
pub mod Agent
pub mod Cli
pub mod Render
pub mod Tests
