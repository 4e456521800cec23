-- ===== src/Platform/Messages.antt =====
-- What a trace of events has printed. The ports print nothing.
use aeon_486_os.Base.{List, [], ◌∷◌, ◌++◌}
use aeon_486_os.Platform.Hal.{Trace, Event, Message}

-- The messages of a trace, the oldest first.
unfoldable pub messages_of : Trace → List Message
messages_of [] = []
messages_of (Event.printed m ∷ trace) = messages_of trace ++ (m ∷ [])
messages_of (Event.in_port port value ∷ trace) = messages_of trace
messages_of (Event.out_port port value ∷ trace) = messages_of trace
messages_of (Event.lgdt limit base ∷ trace) = messages_of trace
messages_of (Event.lidt limit base ∷ trace) = messages_of trace
