-- ===== src/Auth/Rows.antt =====
-- How the rows of the refresh tokens (services/auth.py of src/planagent) move under an UPDATE and an
-- INSERT: how often a token can still be refreshed.
use ming_jian.Base.{
  ℕ, ◌+◌, ◌≤◌, String, ◌≡◌, refl, Bool, true, false, ◌&&◌, List, [], ◌∷◌, arith, ◌==◌, eq_iff,
  if◌then◌else◌, is_none, any_of,
}
use ming_jian.Base.Table.{update_rows, count_rows}
use ming_jian.Auth.{AuthRefreshToken}
use ming_jian.Auth.Tokens.{has_hash, consumable, revoke_row}

abbrev pub issued : String → List AuthRefreshToken → Bool
issued h t = any_of (has_hash h) t

abbrev pub is_live : String → AuthRefreshToken → Bool
is_live h r = has_hash h r && is_none r.revoked_at

-- How often the token of this hash can still be refreshed.
unfoldable pub left : String → List AuthRefreshToken → ℕ
left h t = if issued h t then count_rows (is_live h) t else 1

pub issued-update :
    (p : AuthRefreshToken → Bool) (now : ℕ) (h : String) (t : List AuthRefreshToken)
    → issued h (update_rows p (revoke_row now) t) ≡ issued h t
issued-update p now h [] = refl
issued-update p now h (r ∷ t) = ground (arith, issued-update p now h t)

live-update :
    (p : AuthRefreshToken → Bool) (now : ℕ) (h : String) (t : List AuthRefreshToken)
    → count_rows (is_live h) (update_rows p (revoke_row now) t) ≤ count_rows (is_live h) t
live-update p now h [] = omega arith
live-update p now h (r ∷ t) = ground (arith, live-update p now h t)

pub left-update :
    (p : AuthRefreshToken → Bool) (now : ℕ) (h : String) (t : List AuthRefreshToken)
    → left h (update_rows p (revoke_row now) t) ≤ left h t
unfolding left
left-update p now h t = ground (arith, issued-update p now h t, live-update p now h t)

live_absent :
    (h : String) (t : List AuthRefreshToken) → issued h t ≡ false → count_rows (is_live h) t ≡ 0
live_absent h [] e = refl
live_absent h (r ∷ t) e = ground (arith, live_absent h t)

issued_same : (g h : String) (t : List AuthRefreshToken) → (g == h) ≡ true → issued g t ≡ issued h t
issued_same g h [] e = refl
issued_same g h (r ∷ t) e =
    ground (arith, issued_same g h t e, eq_iff g h, eq_iff r.token_hash g, eq_iff r.token_hash h)

pub left-insert :
    (h : String) (r : AuthRefreshToken) (t : List AuthRefreshToken)
    → issued r.token_hash t ≡ false
    → left h (r ∷ t) ≤ left h t
unfolding left
left-insert h r t e =
    ground (arith, live_absent h t, issued_same r.token_hash h t, eq_iff r.token_hash h)

consume-live :
    (now : ℕ) (h i : String) (t : List AuthRefreshToken)
    → count_rows (consumable now h i) t
        + count_rows (is_live h) (update_rows (consumable now h i) (revoke_row now) t)
      ≡ count_rows (is_live h) t
consume-live now h i [] = omega arith
consume-live now h i (r ∷ t) = ground (arith, consume-live now h i t)

issued_live :
    (now : ℕ) (h i : String) (t : List AuthRefreshToken)
    → issued h t ≡ false
    → count_rows (consumable now h i) t ≡ 0
issued_live now h i [] e = refl
issued_live now h i (r ∷ t) e = ground (arith, issued_live now h i t)

-- A token whose row is taken by the UPDATE has one refresh less left.
pub left-consume :
    (now : ℕ) (h i : String) (t : List AuthRefreshToken)
    → count_rows (consumable now h i) t ≡ 1
    → 1 + left h (update_rows (consumable now h i) (revoke_row now) t) ≤ left h t
unfolding left
left-consume now h i t one = ground (
  arith,
  consume-live now h i t,
  issued_live now h i t,
  issued-update (consumable now h i) now h t,
)
