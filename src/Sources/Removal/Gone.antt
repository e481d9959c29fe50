-- ===== src/Sources/Removal/Gone.antt =====
-- source_service.py: the store after `delete_source`.
use raj_data_handle.Base.{
  ℕ, ◌≡◌, refl, sym, ap, ◌∙◌, String, Bool, true, false, not, Option, none, some, List, [], ◌∷◌,
  ◌++◌, keep, any_of, ok, Exception, raise_if, >>=-eq-ok, ok-injective, source_conflict_error, ◌==◌,
  if◌then◌else◌, arith, eq_iff,
}
use raj_data_handle.Batch.{Batch, Source, find_source}
use raj_data_handle.Account.{AuditLog}
use raj_data_handle.Sources.{SourceStore, Binding, found_source, get_source}
use raj_data_handle.Sources.Update.Stages.{find_source-id}
use raj_data_handle.Sources.Removal.{without, delete_source}

find_source-without :
    (id source_id : String) (sources : List Source)
    → find_source id (without source_id sources)
      ≡ (if source_id == id then none else find_source id sources)
find_source-without id source_id [] = ground arith
find_source-without id source_id (a ∷ sources) = ground (
  arith,
  eq_iff a.source_id source_id,
  eq_iff source_id id,
  eq_iff a.source_id id,
  find_source-without id source_id sources,
)

any_of-keep-not :
    {A : Type 0} (p : A → Bool) (xs : List A) → any_of p (keep (λ a. not (p a)) xs) ≡ false
any_of-keep-not p [] = refl
any_of-keep-not p (x ∷ xs) = ground (arith, any_of-keep-not p xs)

found_source-ok : (o : Option Source) {a : Source} → found_source o ≡ ok a → o ≡ some a
unfolding found_source
found_source-ok none h = cc
found_source-ok (some b) h = ap some (ok-injective h)

get_source-found :
    (id : String) (s : SourceStore) {a : Source}
    → get_source id s ≡ ok a
    → (find_source id s.sources ≡ some a) × (a.source_id ≡ id)
unfolding get_source
get_source-found id s {a} h =
    let found = found_source-ok (find_source id s.sources) h in
    (found, find_source-id id s.sources found)

-- A deletion: the source was there, disabled and without batches, and it and its bindings are gone.
pub record IsDeleted (source_id : String) (s t : SourceStore) : Type 0 where
  pub source : Source
  pub found : find_source source_id s.sources ≡ some source
  pub disabled : source.enabled ≡ false
  pub unused : any_of (λ (b : Batch). b.source_id == source_id) s.batches ≡ false
  pub gone :
      (id : String)
      → find_source id t.sources ≡ (if source_id == id then none else find_source id s.sources)
  pub unbound : any_of (λ (b : Binding). b.source_id == source_id) t.bindings ≡ false
  pub others : t.bindings ≡ keep (λ (b : Binding). not (b.source_id == source_id)) s.bindings
  pub batches : t.batches ≡ s.batches
  pub platforms : t.platforms ≡ s.platforms
  pub entry : AuditLog
  pub about : (entry.action ≡ "source.delete") × (entry.target_id ≡ some source_id)
  pub logged : t.audit ≡ s.audit ++ entry ∷ []

raise_if-false : (b : Bool) (e : Exception) {u : Unit {0}} → raise_if b e ≡ ok u → b ≡ false
raise_if-false true e h = cc
raise_if-false false e h = refl

-- If `delete_source` returns, the source was there, disabled and used by no batch, and afterwards its row and
-- its bindings are gone, while every other source and binding, the platforms and the batches are as
-- before, and the log has one more entry, which tells of the deletion.
pub delete_source-IsDeleted :
    (referred_meanwhile : Bool) (source_id : String) (actor : ℕ) (s t : SourceStore)
    → delete_source referred_meanwhile source_id actor s ≡ ok t
    → IsDeleted source_id s t
unfolding delete_source
delete_source-IsDeleted referred_meanwhile source_id actor s t h =
    let (source, stored, h₁) = >>=-eq-ok (get_source source_id s) _ h in
    let (_, off, h₂) = >>=-eq-ok (raise_if source.enabled source_conflict_error) _ h₁ in
    let (_, unused, h₃) =
      >>=-eq-ok
        (raise_if (any_of (λ (b : Batch). b.source_id == source.source_id) s.batches)
          source_conflict_error)
        _ h₂ in
    let (_, _, h₄) = >>=-eq-ok (raise_if referred_meanwhile source_conflict_error) _ h₃ in
    let (found, id) = get_source-found source_id s stored in
    let same = ok-injective h₄ in
    record {
      source = source;
      found = found;
      disabled = raise_if-false _ source_conflict_error off;
      unused =
          ap (λ i. any_of (λ (b : Batch). b.source_id == i) s.batches) (sym id)
          ∙ raise_if-false _ source_conflict_error unused;
      gone = λ n.
          ap (λ (r : SourceStore). find_source n r.sources) (sym same)
          ∙ ap (λ i. find_source n (without i s.sources)) id
          ∙ find_source-without n source_id s.sources;
      unbound =
          ap (λ (r : SourceStore). any_of (λ (b : Binding). b.source_id == source_id) r.bindings)
            (sym same)
          ∙ ap
              (λ i.
                any_of (λ (b : Binding). b.source_id == source_id)
                  (keep (λ (b : Binding). not (b.source_id == i)) s.bindings))
              id
          ∙ any_of-keep-not (λ (b : Binding). b.source_id == source_id) s.bindings;
      others =
          ap (λ (r : SourceStore). r.bindings) (sym same)
          ∙ ap (λ i. keep (λ (b : Binding). not (b.source_id == i)) s.bindings) id;
      batches = ap (λ (r : SourceStore). r.batches) (sym same);
      platforms = ap (λ (r : SourceStore). r.platforms) (sym same);
      entry = _;
      about = (refl, ap some id);
      logged = ap (λ (r : SourceStore). r.audit) (sym same);
    }
