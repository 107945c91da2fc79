-- ===== src/Base/Table.antt =====
-- Database tables as lists of rows: the statements that the services send through SQLAlchemy.
use mathlib.Core.List.{List, [], ◌∷◌}
use mathlib.Core.Bool.{Bool}
use mathlib.Core.Option.{Option, none, some}
use Prim.Native.Nat.{ℕ, suc}
use ming_jian.Base.Tests.{if◌then◌else◌}

module _ {ℓ} {A : Type ℓ} where
  -- `UPDATE t SET f WHERE p`
  abbrev pub update_rows : (A → Bool) → (A → A) → List A → List A
  update_rows p f [] = []
  update_rows p f (r ∷ t) = (if p r then f r else r) ∷ update_rows p f t

  -- `SELECT count(*) FROM t WHERE p`; also the rowcount of an update.
  abbrev pub count_rows : (A → Bool) → List A → ℕ
  count_rows p [] = 0
  count_rows p (r ∷ t) = if p r then suc (count_rows p t) else count_rows p t

  -- `session.get`, with the test that picks the row by its id.
  abbrev pub find_row : (A → Bool) → List A → Option A
  find_row p [] = none
  find_row p (r ∷ t) = if p r then some r else find_row p t

  -- A write to the object that `session.get` returned, which is the row that the test picks.
  abbrev pub update_first : (A → Bool) → (A → A) → List A → List A
  update_first p f [] = []
  update_first p f (r ∷ t) = if p r then f r ∷ t else r ∷ update_first p f t
