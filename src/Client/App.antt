-- ===== src/Client/App.antt =====
-- libnos/include/nos/AppClient.h.
use platform_external_nos_ho.Base.{ℕ, ◌%◌, ◌^◌, List, Option}
use platform_external_nos_ho.Client.Vector.{Vector}

-- `NuggetClientInterface::CallApp`, of any class that implements it: the app's id, the argument, the
-- request and the response.
abbrev pub CallApp : Type 0 → Type 0
CallApp W = ℕ → ℕ → List ℕ → Option Vector → W → Option ((ℕ × Option Vector) × W)

-- `_client` and `_appId`.
pub record AppClient (W : Type 0) : Type 0 where
  pub client : CallApp W
  pub app_id : ℕ

unfoldable pub call :
    {W : Type 0} → AppClient W → ℕ → List ℕ → Option Vector → W → Option ((ℕ × Option Vector) × W)
call app arg request response w = app.client app.app_id (arg % 2 ^ 16) request response w
