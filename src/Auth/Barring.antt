-- ===== src/Auth/Barring.antt =====
-- The row of a user whose older tokens are refused, and what keeps it so (services/auth.py of
-- src/planagent).
use ming_jian.Base.{
  ℕ, ◌≤◌, ◌<◌, String, ◌≡◌, refl, ◌⊎◌, inl, inr, Bool, true, false, List, [], ◌∷◌, ◌++◌, Option,
  none, some, arith, ◌==◌, eq_iff, if◌then◌else◌, Bool-cases,
}
use ming_jian.Base.Table.{update_rows}
use ming_jian.Auth.{AuthUser, Payload, AuthService}
use ming_jian.Auth.Tokens.{
  is_user, get_user, of_type, match_user, match_subject, match_payload, is_current,
}
use ming_jian.Auth.Change.{
  Edits, Change, draw, join, edit, close, issue, deny, remember, Changes, none_yet, after,
}

-- The row of a user, once it is there, for good inactive or of version `v` at least.
abbrev pub BarredRow : ℕ → Option AuthUser → Type 0
BarredRow v none = ⊥
BarredRow v (some u) = (u.is_active ≡ false) ⊎ (v ≤ u.token_version)

abbrev pub Barred : ℕ → String → List AuthUser → Type 0
Barred v i users = BarredRow v (get_user i users)

Barred-append :
    (v : ℕ) (i : String) (u : AuthUser) (users : List AuthUser)
    → Barred v i users
    → Barred v i (users ++ u ∷ [])
Barred-append v i u [] b = elim b [ ]
Barred-append v i u (w ∷ users) b = elim (Bool-cases (w.id == i)) [
  | inl e ↦ rw e (rw e at b)
  | inr e ↦ rw e (Barred-append v i u users (rw e at b))
]

Barred-edit :
    (v : ℕ) (i j : String) (f : AuthUser → AuthUser) (users : List AuthUser)
    → Edits f
    → Barred v i users
    → Barred v i (update_rows (is_user j) f users)
Barred-edit v i j f [] e b = b
Barred-edit v i j f (w ∷ users) e b = ground (
  arith,
  Barred-edit v i j f users e,
  e.same_id w,
  e.newer w,
  e.stays_out w,
  eq_iff w.id i,
  eq_iff (f w).id i,
)

Change-Barred :
    {s t : AuthService} (v : ℕ) (i : String) → Change s t → Barred v i s.users → Barred v i t.users
Change-Barred v i (draw s n) b = b
Change-Barred v i (join s u) b = Barred-append v i u s.users b
Change-Barred v i (edit s j f e) b = Barred-edit v i j f s.users e b
Change-Barred v i (close s p now) b = b
Change-Barred v i (issue s r e) b = b
Change-Barred v i (deny s h e) b = b
Change-Barred v i (remember s c) b = b

pub Changes-Barred :
    {s t : AuthService} (v : ℕ) (i : String) → Changes s t → Barred v i s.users → Barred v i t.users
Changes-Barred v i none_yet b = b
Changes-Barred v i (after c d) b = Change-Barred v i d (Changes-Barred v i c b)

pub Barred-is_current :
    (v n : ℕ) (o : Option AuthUser) → BarredRow v o → n < v → is_current (some n) o ≡ false
Barred-is_current v n none b lt = refl
Barred-is_current v n (some u) b lt = ground arith

Barred-match_user :
    (v n : ℕ) (p : Payload) (o : Option AuthUser)
    → BarredRow v o
    → p.ver ≡ some n
    → n < v
    → match_user p o ≡ none
Barred-match_user v n p none b e lt = refl
Barred-match_user v n p (some u) b e lt = ground arith

pub Barred-match_payload :
    (v n : ℕ) (i : String) (p : Payload) (users : List AuthUser)
    → Barred v i users
    → p.sub ≡ some i
    → (i == "") ≡ false
    → p.ver ≡ some n
    → n < v
    → match_payload users (some p) ≡ none
Barred-match_payload v n i p users b sub full e lt =
    rw (sub, match_subject) (rw full (Barred-match_user v n p (get_user i users) b e lt))

pub match-of_type :
    (k : String) (users : List AuthUser) (p : Payload)
    → match_payload users (some p) ≡ none
    → match_payload users (of_type k (some p)) ≡ none
match-of_type k users p e = ground arith

pub get_user-edit :
    (i : String) (f : AuthUser → AuthUser) (users : List AuthUser) (u : AuthUser)
    → ((w : AuthUser) → (f w).id ≡ w.id)
    → get_user i users ≡ some u
    → get_user i (update_rows (is_user i) f users) ≡ some (f u)
get_user-edit i f [] u same e = cc
get_user-edit i f (w ∷ users) u same e =
    ground (arith, same w, get_user-edit i f users u same, eq_iff w.id i, eq_iff (f w).id i)

pub edited-Barred :
    (v : ℕ) (i : String) (f : AuthUser → AuthUser) (users : List AuthUser) (u : AuthUser)
    → ((w : AuthUser) → (f w).id ≡ w.id)
    → get_user i users ≡ some u
    → BarredRow v (some (f u))
    → Barred v i (update_rows (is_user i) f users)
edited-Barred v i f users u same e b = rw (get_user-edit i f users u same e) b

-- A call that reports success went through its branch.
pub succeeded {ℓ} :
    (P : AuthService → Type ℓ) (b : Bool) (x y : Bool × AuthService)
    → P x.1
    → y.0 ≡ false
    → (if b then x else y).0 ≡ true
    → P (if b then x else y).1
succeeded P true x y h no_change took = h
succeeded P false x y h no_change took = cc
