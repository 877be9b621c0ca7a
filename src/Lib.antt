-- ===== src/Lib.antt =====
-- Verification of gstsmith-rs, a collection of GStreamer plugins written in Rust.
--
-- Prelude: what the models share. Texts are lists of code points, byte strings lists of numbers
-- below 256, `usize` and `isize` have 64 bits, and a fallible function returns a `Result`. An error
-- message is a constructor that names it.
--
-- Lines (text/lines): the elements lineparse and lineenc.
--   * Lines.Delimiter and Lines.Framing: what an occurrence of the delimiter is, and how a byte
--     stream is cut into records, with no state. The substring search of the crate memchr is a
--     parameter with its documented behaviour as hypotheses (`MemmemLaws`).
--   * Lines.LineParse: text/lines/src/lineparse/imp.rs. The record `LineParse` holds the settings, the
--     scan offset, and of the base class GstBaseParse the next minimum frame size and the frames that
--     were handed on. `handle_frame`, `start`, `stop`, `set_sink_caps` and the event probe are the
--     methods of the source; what GStreamer answers during one call is the record `Call`.
--     Lines.LineParse.Stream lets chunks arrive between calls of `handle_frame`, each with all the
--     bytes that no frame has taken. Lines.LineParse.Properties: the element's properties.
--   * Lines.LineEnc: text/lines/src/lineenc/imp.rs, `transform_size` and `transform`, with the
--     mapping of the two buffers as an argument.
--   * Lines.RoundTrip: the two elements behind one another.
--
-- Inference (analytics/inference-common): what the inference elements share.
--   * Inference.Shape: scalar types, sizes of tensors, image layouts of src/model_info.rs.
--   * Inference.Sections and Inference.ModelInfo: the model-info parser of src/model_info.rs. GLib's
--     key-file reader and the parsing of an f32 are parameters.
--   * Inference.Tensors: `collect_inputs` of src/tensor.rs, with the tensors that a buffer's metadata
--     holds as an argument.
--   * Inference.Preprocess: `preprocess` and `copy_pixels` of src/preprocess.rs. The closures write
--     into the tensor that they are given; the value of a byte in a range of floats is a parameter.
--   * Inference.Decode: `TensorValues::decode` of src/engine.rs; a value is its bit pattern.
--
-- Statsd (utils/statsd): the metrics of the tracer, src/metrics.rs.
--   * Statsd.State: `Metrics` and what it holds. `Arc<PadStats>` is a position in the list of all
--     statistics, so that the map, the channel and a thread share them. A compiled filter is the
--     predicate that it tests.
--   * Statsd.Interval: `PadInterval`. Statsd.Tags: `sanitize_tag_value`.
--   * Statsd.Pads: registration, counting, removal and the resets of intervals. `register` is the
--     section of `update_pad` under the registration lock; Statsd.Pads.Steps lets the threads take
--     turns between such sections and atomic operations, with the worker that receives from the
--     channel of retired series.
--   * Statsd.Pipelines: the maps of pipelines and queues. What GStreamer answers to the upgrade of a
--     weak reference is an argument.
--   * Statsd.Worker: the export of src/worker.rs. The client of the crate cadence is the record
--     `Client`, which takes the n-th line it is given or does not; `World` is what an export changes
--     besides the cursors. Statsd.Worker.Snapshot composes one snapshot with the maps of Statsd.Pads
--     and Statsd.Pipelines; other threads may act before each `try_recv`, and the atomic loads behind
--     that are one step. Statsd.Worker.Run is the loop of the thread, whose waits end as an argument
--     says.
--
-- Nanodet (analytics/nanodet): the tensor decoder.
--   * Nanodet.Float: an f32 as its bit pattern. Comparisons, total order, minimum, maximum and clamp
--     are computed from the bits; the operations that round are the parameter `Rounded`.
--   * Nanodet.Nms: src/nanodettensordec/nms.rs. Nanodet.Decode: src/nanodettensordec/decode.rs, the
--     loops over the strides, rows and columns as structural recursion on what is left of them.
--
-- Vlm (analytics/vlm): the element vlmanalysis, which samples JPEG frames for a language model.
--   * Vlm.Settings and Vlm.Properties: the settings and properties of src/vlmanalysis/imp.rs.
--     Vlm.Config: `validate_settings`, with the parsers, the files and the addresses as the record
--     `Host`.
--   * Vlm.Sampler: the element's state and `collect_batch`. Vlm.Element: the channel to the worker,
--     `start`, `stop`, the events, and a turn of `worker_loop`. What the channel answers is an
--     argument. Vlm.Element.Runs lets buffers, events and turns of the worker come in any order.
--   * Vlm.Backend: the request and the answer of src/backend/openai_chat.rs, with the prompts of
--     src/prompt.rs. serde and the HTTP client are parameters.
--
-- S2 (net/s2): the sink and the source of S2 streams.
--   * S2.Config: the checks of src/config.rs. S2.Queue: `SharedQueue`, `enqueue_record` and `drain` of
--     src/s2sink/imp.rs, a section under the lock being one step.
--   * S2.Worker: `append_worker` as steps between its waits. That a flush or a close of the producer
--     that succeeds confirms all records that were submitted is what the client's documentation says.
--     An `Event` is a call of the element or an answer that the worker waits for, in any order.
--   * S2.Source: src/s2src/imp.rs. S2.Source.Steps has the calls of the base class and the sections of
--     `create` between its locks and its wait. Each worker has a token, a channel and a task; `create`
--     takes the receiver of the worker and gives it back to the worker that is there then. A task may
--     end a wait with a failure at any record, so that where its batches begin and end does not count.
--     What the session of an attempt yields is the parameter `read`. `serial` says of a run that
--     `start`, `stop` and `unlock_stop` come with no `create` in progress.
--
-- No definition runs on fuel: a loop is structural recursion on a list or on the number of
-- iterations that are left.
--
-- Not modelled: the glue that registers and configures GObject elements, the elements that drive
-- external libraries (ONNX Runtime, tract, ocrs, NATS), the metadata of S2 records, the
-- Prometheus tracer, the sockets of the StatsD worker, the console elements, and the queue cache of
-- the StatsD tracer, which walks live GStreamer objects.
pub mod Prelude
pub mod Lines
pub mod Inference
pub mod Statsd
pub mod Nanodet
pub mod Vlm
pub mod S2
