-- ===== src/Store/PauseReason.antt =====
-- The durable pause reasons of internal/store/store.go.
use herdr_bots.Base.{String}

abbrev pub manual : String
manual = "manual"

abbrev pub unread_terminal_runs : String
unread_terminal_runs = "unread_terminal_runs"
