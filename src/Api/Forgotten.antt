-- ===== src/Api/Forgotten.antt =====
-- An engine that the API has stopped too early and forgotten.
use teapod_tun2socks.Prelude.{ℕ, set, none}
use teapod_tun2socks.Engine.Instance.{Instance}
use teapod_tun2socks.Api.{Api}

-- The API after `Stop`, with the engine at a position changed.
abbrev after_stop : {V : Type 0} → Api V → ℕ → Instance V → Api V
after_stop t i x = record { engines = set t.engines i x; engine = none; hook = none }
