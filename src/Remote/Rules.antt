-- ===== src/Remote/Rules.antt =====
-- Rules for the actions of RajAdminChargeClient: what they keep, and which exceptions they may raise.
use mathlib.Core.Path.{subst}
use raj_data_handle.Base.{◌≡◌, refl, Bool, true, false, Result, ok, err, Exception, if◌then◌else◌}
use raj_data_handle.Remote.Session.{Client, Action, pure, raise, lift, ◌>>=◌}

-- `m` keeps `P`, however it ends, and raises only exceptions of `E`
pub record Runs {A : Type 0} (P : Client → Type 0) (E : Exception → Type 0) (m : Action A)
    : Type 0 where
  pub keeps : (c : Client) → P c → P (m c).1
  pub raises : (c : Client) (e : Exception) → (m c).0 ≡ err e → E e

module _ {A : Type 0} {P : Client → Type 0} {E : Exception → Type 0} where
  pub Runs-pure : (a : A) → Runs P E (pure a)
  Runs-pure a = record { keeps = λ c h. h; raises = λ c e h. cc }

  pub Runs-raise : (e : Exception) → E e → Runs P E (raise {A = A} e)
  Runs-raise e allowed = record {
    keeps = λ c h. h;
    raises = λ c x h. subst E (raised c x h) allowed;
  }
    where
      raised : (c : Client) (x : Exception) → (raise {A = A} e c).0 ≡ err x → e ≡ x
      raised c x h = cc

  pub Runs-lift : (r : Result A) → ((e : Exception) → r ≡ err e → E e) → Runs P E (lift r)
  Runs-lift r allowed = record { keeps = λ c h. h; raises = λ c e h. allowed e h }

  pub Runs-if :
      (b : Bool) (m n : Action A)
      → (b ≡ true → Runs P E m)
      → (b ≡ false → Runs P E n)
      → Runs P E (if b then m else n)
  Runs-if true m n h k = h refl
  Runs-if false m n h k = k refl

  -- an action that reads the client first
  pub Runs-read : (f : Client → Action A) → ((c : Client) → Runs P E (f c)) → Runs P E (λ c. f c c)
  Runs-read f h = record { keeps = λ c. (h c).keeps c; raises = λ c. (h c).raises c }

module _ {A B : Type 0} {P : Client → Type 0} {E : Exception → Type 0} where
  Runs-rest :
      (r : Result A) (f : A → Action B)
      → ((e : Exception) → r ≡ err e → E e)
      → ((a : A) → Runs P E (f a))
      → Runs P E (lift r >>= f)
  unfolding ◌>>=◌
  Runs-rest (ok a) f h k = k a
  Runs-rest (err e) f h k = Runs-raise e (h e refl)

  pub Runs-bind :
      (m : Action A) (f : A → Action B)
      → Runs P E m
      → ((a : A) → Runs P E (f a))
      → Runs P E (m >>= f)
  unfolding ◌>>=◌
  Runs-bind m f h k = record {
    keeps = λ c p. let (r, c') = m c in (Runs-rest r f (h.raises c) k).keeps c' (h.keeps c p);
    raises = λ c e q. let (r, c') = m c in (Runs-rest r f (h.raises c) k).raises c' e q;
  }

module _ {A B : Type 0} where
  continue-ok :
      (r : Result A) (c : Client) (f : A → Action B) {b : B}
      → ((lift r >>= f) c).0 ≡ ok b
      → (a : A) × (r ≡ ok a) × ((f a c).0 ≡ ok b)
  unfolding ◌>>=◌
  continue-ok (ok a) c f h = (a, refl, h)
  continue-ok (err e) c f h = absurd (cc h)

  -- Inversion of a chain that returned.
  pub bind-ok :
      (m : Action A) (f : A → Action B) (c : Client) {b : B}
      → ((m >>= f) c).0 ≡ ok b
      → (a : A) × ((m c).0 ≡ ok a) × ((f a (m c).1).0 ≡ ok b)
  unfolding ◌>>=◌
  bind-ok m f c h = let (r, c') = m c in continue-ok r c' f h

  continue-client :
      (r : Result A) (c : Client) (f : A → Action B) {a : A}
      → r ≡ ok a
      → ((lift r >>= f) c).1 ≡ (f a c).1
  unfolding ◌>>=◌
  continue-client (ok a) c f h = cc
  continue-client (err e) c f h = absurd (cc h)

  pub bind-client :
      (m : Action A) (f : A → Action B) (c : Client) {a : A}
      → (m c).0 ≡ ok a
      → ((m >>= f) c).1 ≡ (f a (m c).1).1
  unfolding ◌>>=◌
  bind-client m f c h = let (r, c') = m c in continue-client r c' f h
