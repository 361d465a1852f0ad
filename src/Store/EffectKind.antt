-- ===== src/Store/EffectKind.antt =====
-- The effect kinds of internal/store/store.go.
use herdr_bots.Base.{String}

abbrev pub verifier : String
verifier = "verifier"

abbrev pub workspace_close : String
workspace_close = "workspace_close"
