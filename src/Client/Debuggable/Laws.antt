-- ===== src/Client/Debuggable/Laws.antt =====
-- The debuggable client is the client, with the callbacks around it.
use platform_external_nos_ho.Base.{ℕ, List, Option, none, some}
use platform_external_nos_ho.Client.Vector.{Vector}
use platform_external_nos_ho.Client.Host.{Host}
use platform_external_nos_ho.Client.Debuggable.{on_response}

module _ {W : Type 0} (host : Host W) where
  -- A result, with the callback on the response made behind it.
  abbrev pub with_callback :
      Option (ℕ → List ℕ → W → W)
      → Option ((ℕ × Option Vector) × W)
      → Option ((ℕ × Option Vector) × W)
  with_callback cb none = none
  with_callback cb (some ((code, response), w)) =
      some ((code, response), on_response cb code response w)
