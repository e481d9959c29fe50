-- ===== src/Sources/Connection/Bindings.antt =====
-- source_service.py: the bindings after `_sync_known_channels`, and what a passed test has seen.
use raj_data_handle.Base.{
  ℕ, ◌≡◌, String, Bool, true, ◌&&◌, Option, none, some, List, [], ◌∷◌, ◌++◌, any_of, any_of-append,
  Member, Bool-cases, inl, inr, arith, eq_iff,
}
use mathlib.Core.Path.{subst}
use raj_data_handle.Remote.{Channel}
use raj_data_handle.Sources.{Platform, Binding}
use raj_data_handle.Sources.Connection.{
  platform_key_for_channel, platform_of, is_bound, new_binding, rebound, Sync, sync_channel,
  sync_known_channels,
}

-- an active binding of that channel
abbrev pub is_active_binding : (source_id : String) → Channel → Platform → Binding → Bool
is_active_binding source_id channel platform b = is_bound source_id channel platform b && b.active

rebound-bound :
    (source_id : String) (channel : Channel) (p : Platform) (bindings : List Binding)
    → any_of (is_bound source_id channel p) bindings ≡ true
    → any_of (is_active_binding source_id channel p) (rebound source_id channel p bindings) ≡ true
unfolding rebound is_bound
rebound-bound source_id channel p [] h = cc
rebound-bound source_id channel p (b ∷ bindings) h =
    ground (arith, rebound-bound source_id channel p bindings)

-- a binding that is active stays so
rebound-keeps :
    (source_id : String) (channel other : Channel) (p q : Platform) (bindings : List Binding)
    → any_of (is_active_binding source_id other q) bindings ≡ true
    → any_of (is_active_binding source_id other q) (rebound source_id channel p bindings) ≡ true
unfolding rebound is_bound
rebound-keeps source_id channel other p q [] h = cc
rebound-keeps source_id channel other p q (b ∷ bindings) h =
    ground (arith, rebound-keeps source_id channel other p q bindings)

-- the rows that the commit stores
abbrev pub rows : Sync → List Binding
rows state = state.stored ++ state.added

new_binding-active :
    (source_id : String) (actor : ℕ) (channel : Channel) (p : Platform)
    → is_active_binding source_id channel p (new_binding source_id actor channel p) ≡ true
unfolding new_binding is_bound
new_binding-active source_id actor channel p =
    ground (arith, eq_iff source_id source_id, eq_iff channel.code channel.code)

sync_channel-keeps :
    (source_id : String) (actor : ℕ) (channel other : Channel) (o : Option Platform) (q : Platform)
    (state : Sync)
    → any_of (is_active_binding source_id other q) (rows state) ≡ true
    → any_of
        (is_active_binding source_id other q)
        (rows (sync_channel source_id actor channel o state))
      ≡ true
unfolding sync_channel
sync_channel-keeps source_id actor channel other none q state h = h
sync_channel-keeps source_id actor channel other (some p) q state h =
    let f = is_active_binding source_id other q in
    let fresh = new_binding source_id actor channel p ∷ [] in
    elim (Bool-cases (any_of (is_bound source_id channel p) state.stored)) [
      | inl e ↦ rw e (
          ground (
            arith,
            any_of-append f state.stored state.added,
            any_of-append f (rebound source_id channel p state.stored) state.added,
            rebound-keeps source_id channel other p q state.stored,
          ))
      | inr e ↦ rw e (
          ground (
            arith,
            any_of-append f state.stored state.added,
            any_of-append f state.stored (state.added ++ fresh),
            any_of-append f state.added fresh,
          ))
    ]

sync-keeps :
    (source_id : String) (actor : ℕ) (platforms : List Platform) (other : Channel) (q : Platform)
    (channels : List Channel) (state : Sync)
    → any_of (is_active_binding source_id other q) (rows state) ≡ true
    → any_of
        (is_active_binding source_id other q)
        (rows (sync_known_channels source_id actor platforms channels state))
      ≡ true
unfolding sync_known_channels
sync-keeps source_id actor platforms other q [] state h = h
sync-keeps source_id actor platforms other q (channel ∷ channels) state h =
    sync-keeps source_id actor platforms other q channels _ (
      sync_channel-keeps source_id actor channel other
        (platform_of (platform_key_for_channel channel.label) platforms) q state h)

sync_channel-bound :
    (source_id : String) (actor : ℕ) (channel : Channel) (o : Option Platform) (p : Platform)
    (state : Sync)
    → o ≡ some p
    → any_of
        (is_active_binding source_id channel p)
        (rows (sync_channel source_id actor channel o state))
      ≡ true
unfolding sync_channel
sync_channel-bound source_id actor channel none p state h = cc
sync_channel-bound source_id actor channel (some q) p state h =
    let same : q ≡ p = cc in
    let f = is_active_binding source_id channel p in
    let fresh = new_binding source_id actor channel p ∷ [] in
    rw same (elim (Bool-cases (any_of (is_bound source_id channel p) state.stored)) [
      | inl e ↦ rw e (
          ground (
            arith,
            any_of-append f (rebound source_id channel p state.stored) state.added,
            rebound-bound source_id channel p state.stored e,
          ))
      | inr e ↦ rw e (
          ground (
            arith,
            any_of-append f state.stored (state.added ++ fresh),
            any_of-append f state.added fresh,
            new_binding-active source_id actor channel p,
          ))
    ])

-- Every channel of a known platform that `_sync_known_channels` is given has an active binding among the rows
-- that are to be committed.
pub sync-bound :
    (source_id : String) (actor : ℕ) (platforms : List Platform) (channels : List Channel)
    (state : Sync) (channel : Channel) (p : Platform)
    → Member channel channels
    → platform_of (platform_key_for_channel channel.label) platforms ≡ some p
    → any_of
        (is_active_binding source_id channel p)
        (rows (sync_known_channels source_id actor platforms channels state))
      ≡ true
unfolding sync_known_channels
sync-bound source_id actor platforms [] state channel p m known = absurd m
sync-bound source_id actor platforms (c ∷ channels) state channel p (inl e) known =
    sync-keeps source_id actor platforms channel p channels _ (
      subst
        (λ (x : Channel).
          any_of (is_active_binding source_id channel p) (
            rows (
              sync_channel source_id actor x
                (platform_of (platform_key_for_channel x.label) platforms) state))
          ≡ true)
        e (sync_channel-bound source_id actor channel _ p state known))
sync-bound source_id actor platforms (c ∷ channels) state channel p (inr m) known =
    sync-bound source_id actor platforms channels _ channel p m known
