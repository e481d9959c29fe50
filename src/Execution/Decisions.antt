-- ===== src/Execution/Decisions.antt =====
-- reconciliation_execution_service.py: what the decisions of comparison and recheck rest on.
use mathlib.Core.Path.{subst}
use mathlib.Core.List.{Perm, append_assoc, perm_middle, map-append, append-nil}
use mathlib.Core.List.Perm
use raj_data_handle.Base.{
  ℕ, ◌+◌, ◌≡◌, refl, sym, ◌∙◌, ◌⊎◌, inl, inr, true, false, Option, none, some, List, [], ◌∷◌, ◌++◌,
  map, Result, ok, err, eqb, length, ◌%◌, if◌then◌else◌, All, All-append, ok-injective, >>=-eq-ok,
}
use raj_data_handle.Value.{Fields}
use raj_data_handle.Payment.{PaymentOrderGroup}
use raj_data_handle.Engine.{ReconciliationDecision, compare_with_remote_orders}
use raj_data_handle.BatchState.{rechecking}
use raj_data_handle.Remote.{Channel}
use raj_data_handle.Remote.Session.{Client, Site, Action}
use raj_data_handle.Remote.Orders.{ExactSearchResult, exact_search}
use raj_data_handle.Execution.Steps.{
  Run, World, Outcome, value, raised, returned, Task, pure, proceed, ◌>>=◌, lift, remote,
}
use raj_data_handle.Execution.{
  Decided, sorted_out, first_pass, after_search, or_empty, unless_cancelled, recheck_one, report,
  recheck, recheck_all, decide, transition, set_progress,
}

proceed-value :
    {A B : Type 0} (r : Outcome A) (t : Run) (f : A → Task B) {b : B}
    → (proceed r f t).0 ≡ value b
    → (a : A) × (r ≡ value a) × ((f a t).0 ≡ value b)
proceed-value (value a) t f h = (a, refl, h)
proceed-value (raised e) t f h = absurd (cc h)
proceed-value returned t f h = absurd (cc h)

pub bind-value :
    {A B : Type 0} (m : Task A) (f : A → Task B) (s : Run) {b : B}
    → ((m >>= f) s).0 ≡ value b
    → (a : A) × ((m s).0 ≡ value a) × ((f a (m s).1).0 ≡ value b)
unfolding ◌>>=◌
bind-value m f s h = let (r, t) = m s in proceed-value r t f h

lift-value : {A : Type 0} (r : Result A) (s : Run) {a : A} → (lift r s).0 ≡ value a → r ≡ ok a
lift-value (ok a) s h = cc
lift-value (err e) s h = cc

remote-value :
    {A : Type 0} (action : Action A) (s : Run) {a : A}
    → (remote action s).0 ≡ value a
    → (action s.client).0 ≡ ok a
remote-value action s h = lift-value (action s.client).0 s h

value-injective : {A : Type 0} {a b : A} → value a ≡ value b → a ≡ b
value-injective h = cc

abbrev pub group_of : Decided → PaymentOrderGroup
group_of x = x.0

-- the decision of the first pass
abbrev pub Compared : List Fields → Decided → Type 0
Compared orders x = compare_with_remote_orders x.0 orders false ≡ ok (some x.1)

abbrev pub Unanswered : List Fields → PaymentOrderGroup → Type 0
Unanswered orders p = compare_with_remote_orders p orders false ≡ ok none

-- the decision of an exact search that the execution has made
pub record Searched (site : Site) (channels : List Channel) (x : Decided) : Type 0 where
  pub client : Client
  pub exact : ExactSearchResult
  pub searched :
      (exact_search site channels (or_empty x.0.merchant_order_no) x.0.platform_order_no client).0
      ≡ ok exact
  pub found : Option ReconciliationDecision
  pub compared : compare_with_remote_orders x.0 exact.orders true ≡ ok found
  pub decided : x.1 ≡ after_search exact.complete found

record IsFirstPass (orders : List Fields) (groups : List PaymentOrderGroup)
    (r : List Decided × List PaymentOrderGroup) : Type 0 where
  parts : Perm (map group_of r.0 ++ r.1) groups
  compared : All (Compared orders) r.0
  unanswered : All (Unanswered orders) r.1

sorted_out-IsFirstPass :
    (orders : List Fields) (p : PaymentOrderGroup) (groups : List PaymentOrderGroup)
    (d : Option ReconciliationDecision) (r : List Decided × List PaymentOrderGroup)
    → compare_with_remote_orders p orders false ≡ ok d
    → IsFirstPass orders groups r
    → IsFirstPass orders (p ∷ groups) (sorted_out p d r)
unfolding sorted_out
sorted_out-IsFirstPass orders p groups none r e h = record {
  parts = Perm.trans (perm_middle (map group_of r.0) r.1) (Perm.cons p h.parts);
  compared = h.compared;
  unanswered = (e, h.unanswered);
}
sorted_out-IsFirstPass orders p groups (some d) r e h = record {
  parts = Perm.cons p h.parts;
  compared = (e, h.compared);
  unanswered = h.unanswered;
}

first_pass-IsFirstPass :
    (orders : List Fields) (groups : List PaymentOrderGroup)
    (r : List Decided × List PaymentOrderGroup)
    → first_pass orders groups ≡ ok r
    → IsFirstPass orders groups r
unfolding first_pass
first_pass-IsFirstPass orders [] r h =
    subst (IsFirstPass orders []) (ok-injective h)
      (record { parts = Perm.refl []; compared = tt; unanswered = tt })
first_pass-IsFirstPass orders (p ∷ groups) r h =
    let (d, e, rest) = >>=-eq-ok (compare_with_remote_orders p orders false) _ h in
    let (q, qh, last) = >>=-eq-ok (first_pass orders groups) _ rest in
    subst (IsFirstPass orders (p ∷ groups)) (ok-injective last)
      (sorted_out-IsFirstPass orders p groups d q e (first_pass-IsFirstPass orders groups q qh))

-- what the loop over the candidates adds to the decisions
record IsRechecked (site : Site) (channels : List Channel) (candidates : List PaymentOrderGroup)
    (before after : List Decided) : Type 0 where
  more : List Decided
  added : after ≡ before ++ more
  groups : map group_of more ≡ candidates
  searched : All (Searched site channels) more

module _ (world : World) (channels : List Channel) where
  recheck_one-Searched :
      (p : PaymentOrderGroup) (s : Run) (x : Decided)
      → (recheck_one world channels p s).0 ≡ value x
      → (group_of x ≡ p) × Searched world.site channels x
  unfolding recheck_one
  recheck_one-Searched p s x h =
      let search =
        exact_search world.site channels (or_empty p.merchant_order_no) p.platform_order_no in
      let (exact, eh, rest) = bind-value (remote search) _ s h in
      let (d, dh, last) =
        bind-value (lift (compare_with_remote_orders p exact.orders true)) _ _ rest in
      subst (λ y. (group_of y ≡ p) × Searched world.site channels y) (value-injective last)
        (
          refl,
          record {
            client = s.client;
            exact = exact;
            searched = remote-value search s eh;
            found = d;
            compared =
                lift-value (compare_with_remote_orders p exact.orders true) (remote search s).1 dh;
            decided = refl;
          },
        )

  recheck-IsRechecked :
      (total index : ℕ) (candidates : List PaymentOrderGroup) (before : List Decided) (s : Run)
      (after : List Decided)
      → (recheck world channels total index candidates before s).0 ≡ value after
      → IsRechecked world.site channels candidates before after
  unfolding recheck
  recheck-IsRechecked total index [] before s after h = record {
    more = [];
    added = sym (value-injective h) ∙ sym (append-nil before);
    groups = refl;
    searched = tt;
  }
  recheck-IsRechecked total index (p ∷ rest) before s after h =
      let (_, _, h₁) =
        bind-value (if eqb (index % 25) 1 then unless_cancelled world else pure tt) _ s h in
      let (one, oh, h₂) = bind-value (recheck_one world channels p) _ _ h₁ in
      let (_, _, h₃) = bind-value (report world total index (length (before ++ one ∷ []))) _ _ h₂ in
      let r = recheck-IsRechecked total (index + 1) rest (before ++ one ∷ []) _ after h₃ in
      let (same, searched) = recheck_one-Searched p _ one oh in
      record {
        more = one ∷ r.more;
        added = r.added ∙ append_assoc before (one ∷ []) r.more;
        groups = cc;
        searched = (searched, r.searched);
      }

-- what a decision rests on: the comparison with the fetched orders, or, for a group that none of
-- them answers, an exact search
abbrev pub Justified : World → List Channel → List Fields → Decided → Type 0
Justified world channels orders x =
    Compared orders x ⊎ (Unanswered orders x.0 × Searched world.site channels x)

-- a list of decisions that gives every group one, each with its justification
pub record IsDecided (world : World) (channels : List Channel) (orders : List Fields)
    (groups : List PaymentOrderGroup) (decisions : List Decided) : Type 0 where
  pub complete : Perm (map group_of decisions) groups
  pub justified : All (Justified world channels orders) decisions

module _ (world : World) (channels : List Channel) (orders : List Fields) where
  Compared-All :
      (xs : List Decided) → All (Compared orders) xs → All (Justified world channels orders) xs
  Compared-All [] h = tt
  Compared-All (x ∷ xs) (h, k) = (inl h, Compared-All xs k)

  Searched-All :
      (xs : List Decided)
      → All (Unanswered orders) (map group_of xs)
      → All (Searched world.site channels) xs
      → All (Justified world channels orders) xs
  Searched-All [] u h = tt
  Searched-All (x ∷ xs) (u, v) (h, k) = (inr (u, h), Searched-All xs v k)

  recheck_all-IsRechecked :
      (candidates : List PaymentOrderGroup) (before : List Decided) (s : Run) (after : List Decided)
      → (recheck_all world channels candidates before s).0 ≡ value after
      → IsRechecked world.site channels candidates before after
  unfolding recheck_all
  recheck_all-IsRechecked [] before s after h = record {
    more = [];
    added = sym (value-injective h) ∙ sym (append-nil before);
    groups = refl;
    searched = tt;
  }
  recheck_all-IsRechecked (p ∷ rest) before s after h =
      let (_, _, h₁) = bind-value (unless_cancelled world) _ s h in
      let (_, _, h₂) = bind-value (transition world rechecking) _ _ h₁ in
      recheck-IsRechecked world channels _ 1 (p ∷ rest) before _ after h₂

  IsDecided-parts :
      (groups : List PaymentOrderGroup) (r : List Decided × List PaymentOrderGroup)
      (after : List Decided)
      → IsFirstPass orders groups r
      → IsRechecked world.site channels r.1 r.0 after
      → IsDecided world channels orders groups after
  IsDecided-parts groups r after f k =
      subst (IsDecided world channels orders groups) (sym k.added) (record {
        complete = rw (map-append group_of r.0 k.more) (rw k.groups f.parts);
        justified =
            All-append (Justified world channels orders) r.0 k.more (Compared-All r.0 f.compared)
              (Searched-All k.more (rw k.groups f.unanswered) k.searched);
      })

  pub decide-IsDecided :
      (groups : List PaymentOrderGroup) (s : Run) (decisions : List Decided)
      → (decide world channels orders groups s).0 ≡ value decisions
      → IsDecided world channels orders groups decisions
  unfolding decide
  decide-IsDecided groups s decisions h =
      let (r, rh, h₁) = bind-value (lift (first_pass orders groups)) _ s h in
      let (_, _, h₂) = bind-value (set_progress world _) _ _ h₁ in
      IsDecided-parts groups r decisions
        (first_pass-IsFirstPass orders groups r (lift-value (first_pass orders groups) s rh))
        (recheck_all-IsRechecked r.1 r.0 _ decisions h₂)
