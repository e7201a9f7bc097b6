-- ===== src/Lib.antt =====
-- Verification of the gateway between an Urmet doorphone and Home Assistant.
--
-- The gateway (addon/urmet-gateway/urmet_gateway) runs one asyncio loop. The SDK, which is native
-- code, is called on one worker thread; its callbacks hop onto the loop. The use cases keep the book
-- of the dialogs and the browser legs on them, and tell what happened on an event bus, from which
-- each WebSocket of a browser reads. A supervisor keeps the SIP binding alive. The media part moves
-- voice and picture between the SDK's taps and aiortc.
--
-- - Prelude: names shared by all, Boolean tests, association lists for dicts.
-- - Threads: coroutines on one loop, as asyncio runs them. A course ends, or waits and goes on from
--   whatever state it is resumed in; a run begins courses and resumes any that waits, in any order.
-- - Domain, Domain/Errors: domain/models.py and domain/errors.py, with the call states as
--   custom_components/urmet/models.py has them. The tests of a state that the SDK owns
--   (is_streaming, is_terminal) are a parameter with two laws.
-- - Bus: usecases/events.py. EventBus is the set of Subscription records and those that left it;
--   `publish`, `subscribe`, `close` are its methods, `leave` a close by the reader. Invariant and Runs
--   have what holds after any run, Delivery and Reading what a reader gets.
-- - Calls: usecases/calls.py. CallBook with its dict and its set of ids; `record_call` is `record`.
-- - Service: usecases/service.py, sessions.py and state.py. World has the state; Legs is
--   MediaSessions, Commands the coroutines of DoorphoneService, Callbacks what the SDK reports, Loop
--   every run of those on the loop. A coroutine is a course of Threads; the outcome of each awaited
--   call is an argument, so that the port of the SDK and the session objects are parameters. The
--   coroutines of one await are functions of what the loop did meanwhile, too (Loop/Alone has both).
-- - Sip: sip/worker.py, sip/holder.py, sip/bridge.py (Hop) and sip/supervision.py. A turn of the
--   supervisor is a function of what the client, the hook and the worker answered in it.
-- - Media: media/audio/bridge.py (Audio/Bridge, and the threads step by step in Bridge/Wake
--   and Bridge/Conservation), media/audio/g711.py (Audio/G711), media/audio/tracks.py (Audio/Tracks), media/track.py
--   (Video/Track), media/pipeline.py (Video/Pipeline), media/watchdog.py (Video/Watchdog),
--   media/picture_wait.py (Video/PictureWait), media/encoder.py (Video/Encoder),
--   media/session.py and media/audio/measure.py (Session, Session/Answering),
--   media/session_video.py (Session/Video, as courses of Threads), and the bounded queues that drop
--   their oldest (Queue). What may happen within an await of a teardown is in Session/Acts, what may
--   happen while a tap opens, between any two awaits of the pipeline, in Video/Pipeline/Generation.
-- - Http: http/errors.py and the bodies of http/rest.py (Errors), its handlers (Rest), http/ws.py
--   (EventStream, with its reads between the publishing). Which SDK error is an instance of which is
--   a parameter with laws.
-- - Integration: custom_components/urmet. Json, Models and Events are models.py and events.py, with
--   Events/Wire what a frame of the gateway carries; Client is client.py, over what each attempt at
--   the event stream comes to; Coordinator, Repairs, Commands, Services, Sensors (sensor.py,
--   binary_sensor.py, switch.py, entity.py), Doorbell (event.py) and Card (websocket_api.py) are the
--   modules of these names. Home Assistant, Python's conversions of odd values and the set's order
--   are parameters. Coordinator/Mirroring joins the service, the stream and the coordinator.
-- - Runtime: runtime.py and sip/publisher.py, the parts of the gateway together.
--
-- Loops are structural. One takes fuel, the cutting of frames in Audio/Tracks: as much as there are
-- bytes, which is enough for frames of at least one byte. Counters and instants are unbounded
-- numbers, as in Python. Strings are kept where the code reads them.
--
-- Not modelled: logging, the wiring of the process, aiohttp, pydantic and aiortc, the SDK, the
-- encoder's command line and log, the forms and the set-up of the Home Assistant integration, the
-- TypeScript card.
pub mod Prelude
pub mod Bus
pub mod Domain
pub mod Calls
pub mod Service
pub mod Sip
pub mod Media
pub mod Http
pub mod Integration
pub mod Runtime
pub mod Threads
