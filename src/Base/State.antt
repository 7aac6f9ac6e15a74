-- ===== src/Base/State.antt =====
-- Calls that act on the world outside the program: the state after the call comes with the result.
abbrev pub M : Type 0 → Type 0 → Type 0
M W A = W → A × W
