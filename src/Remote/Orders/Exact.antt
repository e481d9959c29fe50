-- ===== src/Remote/Orders/Exact.antt =====
-- remote_charge_service.py: `exact_search` under remote errors and partial answers.
use raj_data_handle.Base.{
  ◌≡◌, refl, ◌∙◌, String, true, Option, List, ◌∷◌, [], Result, ok, err, Exception, arith, length,
}
use raj_data_handle.Base.Int.{pos, eqb_ℤ, leb_ℤ}
use raj_data_handle.Value.{Fields}
use raj_data_handle.Remote.{Channel}
use raj_data_handle.Remote.Orders.{
  PageInfo, Query, fetch_charge_page, Search, collect, ExactSearchResult, after_lookup, lookup_one,
  lookup_all, lookup_channels, lookups, exact_search, fetch_all_charge_orders,
}
use raj_data_handle.Remote.Session.{Client, Site}
use raj_data_handle.Remote.Rules.{Runs, Runs-pure, Runs-bind, bind-ok, bind-client}
use raj_data_handle.Remote.ReadOnly.{HasOnlyRead, IsClientError, IsUnexpected}
use raj_data_handle.Remote.Orders.Pages.{fetch_charge_page-Runs, fetch_all-HasOnlyRead}

-- a page that is the whole answer to its query
abbrev pub IsWhole : List Fields × PageInfo → Type 0
IsWhole (items, info) =
    (leb_ℤ info.total_page (pos 1) ≡ true) × (eqb_ℤ (pos (length items)) info.total ≡ true)

after_lookup-client :
    (s : Search) (r : Result (List Fields × PageInfo)) (c : Client) → (after_lookup s r c).1 ≡ c
unfolding after_lookup
after_lookup-client s (ok got) c = refl
after_lookup-client s (err e) c = ground arith

after_lookup-raises :
    (s : Search) (r : Result (List Fields × PageInfo)) (c : Client) (e : Exception)
    → ((x : Exception) → r ≡ err x → IsClientError x)
    → (after_lookup s r c).0 ≡ err e
    → IsUnexpected e
unfolding after_lookup
after_lookup-raises s (ok got) c e h q = cc
after_lookup-raises s (err x) c e h q = ground (arith, h x refl)

-- a lookup that leaves the search complete found it complete and got the whole answer
after_lookup-complete :
    (s s' : Search) (r : Result (List Fields × PageInfo)) (c : Client)
    → (after_lookup s r c).0 ≡ ok s'
    → s'.complete ≡ true
    → (s.complete ≡ true)
      × (got : List Fields × PageInfo) × (r ≡ ok got)
      × IsWhole got
      × (s'.found ≡ collect got.0 s.found)
unfolding after_lookup
after_lookup-complete s s' (ok (items, info)) c q h =
    (ground arith, (items, info), refl, (ground arith, ground arith), ground arith)
after_lookup-complete s s' (err e) c q h = absurd (ground arith)

-- the client after the lookups of one channel
after_queries : Site → Channel → List Query → Client → Client
after_queries site channel [] c = c
after_queries site channel (q ∷ queries) c =
    after_queries site channel queries (fetch_charge_page site channel 1 q c).1

-- every query of the channel, one after the other, gets its whole answer on one page
Whole : Site → Channel → List Query → Client → Type 0
Whole site channel [] c = Unit
Whole site channel (q ∷ queries) c =
    ((got : List Fields × PageInfo) × ((fetch_charge_page site channel 1 q c).0 ≡ ok got)
      × IsWhole got)
    × Whole site channel queries (fetch_charge_page site channel 1 q c).1

-- so do those of every channel
pub WholeSearch : Site → List Channel → List Query → Client → Type 0
WholeSearch site [] queries c = Unit
WholeSearch site (channel ∷ channels) queries c =
    Whole site channel queries c
    × WholeSearch site channels queries (after_queries site channel queries c)

module _ (site : Site) where
  lookup_one-client :
      (channel : Channel) (q : Query) (s : Search) (c : Client)
      → (lookup_one site channel q s c).1 ≡ (fetch_charge_page site channel 1 q c).1
  unfolding lookup_one
  lookup_one-client channel q s c = after_lookup-client s _ _

  lookup_one-complete :
      (channel : Channel) (q : Query) (s t : Search) (c : Client)
      → (lookup_one site channel q s c).0 ≡ ok t
      → t.complete ≡ true
      → (s.complete ≡ true)
        × (got : List Fields × PageInfo) × ((fetch_charge_page site channel 1 q c).0 ≡ ok got)
        × IsWhole got
        × (t.found ≡ collect got.0 s.found)
  unfolding lookup_one
  lookup_one-complete channel q s t c = after_lookup-complete s t _ _

  lookup_all-complete :
      (channel : Channel) (queries : List Query) (s s' : Search) (c : Client)
      → (lookup_all site channel queries s c).0 ≡ ok s'
      → s'.complete ≡ true
      → (s.complete ≡ true) × Whole site channel queries c
  unfolding lookup_all Whole
  lookup_all-complete channel [] s s' c q h = (ground arith, tt)
  lookup_all-complete channel (query ∷ queries) s s' c q h =
      let (t, one, rest) = bind-ok (lookup_one site channel query s) _ c q in
      let (u, whole) =
        lookup_all-complete channel queries t s' (fetch_charge_page site channel 1 query c).1
          (rw (lookup_one-client channel query s c) at rest) h in
      let (done, got, e, w, _) = lookup_one-complete channel query s t c one u in
      (done, ((got, e, w), whole))

  after_queries-client :
      (channel : Channel) (queries : List Query) (s s' : Search) (c : Client)
      → (lookup_all site channel queries s c).0 ≡ ok s'
      → (lookup_all site channel queries s c).1 ≡ after_queries site channel queries c
  unfolding lookup_all after_queries
  after_queries-client channel [] s s' c q = refl
  after_queries-client channel (query ∷ queries) s s' c q =
      let (t, one, rest) = bind-ok (lookup_one site channel query s) _ c q in
      bind-client (lookup_one site channel query s) _ c one
      ∙ (rw (lookup_one-client channel query s c) (
          after_queries-client channel queries t s' (fetch_charge_page site channel 1 query c).1
            (rw (lookup_one-client channel query s c) at rest)))

  lookup_channels-complete :
      (channels : List Channel) (queries : List Query) (s s' : Search) (c : Client)
      → (lookup_channels site channels queries s c).0 ≡ ok s'
      → s'.complete ≡ true
      → (s.complete ≡ true) × WholeSearch site channels queries c
  unfolding lookup_channels WholeSearch
  lookup_channels-complete [] queries s s' c q h = (ground arith, tt)
  lookup_channels-complete (channel ∷ channels) queries s s' c q h =
      let (t, one, rest) = bind-ok (lookup_all site channel queries s) _ c q in
      let (u, others) =
        lookup_channels-complete channels queries t s' (after_queries site channel queries c)
          (rw (after_queries-client channel queries s t c one) at rest) h in
      let (done, whole) = lookup_all-complete channel queries s t c one u in (done, (whole, others))

  lookup_one-Runs :
      (channel : Channel) (q : Query) (s : Search)
      → Runs HasOnlyRead IsUnexpected (lookup_one site channel q s)
  unfolding lookup_one
  lookup_one-Runs channel q s = record {
    keeps = λ c h.
        rw (after_lookup-client s (fetch_charge_page site channel 1 q c).0 _)
          ((fetch_charge_page-Runs site channel 1 q).keeps c h);
    raises =
        λ c e h. after_lookup-raises s _ _ e ((fetch_charge_page-Runs site channel 1 q).raises c) h;
  }

  lookup_all-Runs :
      (channel : Channel) (queries : List Query) (s : Search)
      → Runs HasOnlyRead IsUnexpected (lookup_all site channel queries s)
  unfolding lookup_all
  lookup_all-Runs channel [] s = Runs-pure s
  lookup_all-Runs channel (q ∷ queries) s =
      Runs-bind _ _ (lookup_one-Runs channel q s) λ t. lookup_all-Runs channel queries t

  lookup_channels-Runs :
      (channels : List Channel) (queries : List Query) (s : Search)
      → Runs HasOnlyRead IsUnexpected (lookup_channels site channels queries s)
  unfolding lookup_channels
  lookup_channels-Runs [] queries s = Runs-pure s
  lookup_channels-Runs (channel ∷ channels) queries s =
      Runs-bind _ _ (lookup_all-Runs channel queries s) λ t. lookup_channels-Runs channels queries t

  exact_search-Runs :
      (channels : List Channel) (merchant : String) (platform : Option String)
      → Runs HasOnlyRead IsUnexpected (exact_search site channels merchant platform)
  unfolding exact_search
  exact_search-Runs channels merchant platform =
      Runs-bind _ _ (lookup_channels-Runs channels (lookups merchant platform) _) λ s. Runs-pure _

  -- No error of the client leaves the exact search: it may raise only an `OverflowError`, a
  -- `ValueError`, or an exception of the libraries that no handler names.
  pub exact_search-raises :
      (channels : List Channel) (merchant : String) (platform : Option String) (c : Client)
      (e : Exception)
      → (exact_search site channels merchant platform c).0 ≡ err e
      → IsUnexpected e
  exact_search-raises channels merchant platform =
      (exact_search-Runs channels merchant platform).raises

  -- the exact search sends nothing but logins and allowed reads
  exact_search-HasOnlyRead :
      (channels : List Channel) (merchant : String) (platform : Option String) (c : Client)
      → HasOnlyRead c
      → HasOnlyRead (exact_search site channels merchant platform c).1
  exact_search-HasOnlyRead channels merchant platform =
      (exact_search-Runs channels merchant platform).keeps

  -- From a client that has sent only logins and allowed reads, the fetch of all pages and the exact
  -- search send only such requests, however they end.
  pub searches-HasOnlyRead :
      (channels : List Channel) (create_start create_end merchant : String)
      (platform : Option String) (c : Client)
      → HasOnlyRead c
      → HasOnlyRead (fetch_all_charge_orders site channels create_start create_end c).1
        × HasOnlyRead (exact_search site channels merchant platform c).1
  searches-HasOnlyRead channels create_start create_end merchant platform c h = (
    fetch_all-HasOnlyRead site channels create_start create_end c h,
    exact_search-HasOnlyRead channels merchant platform c h,
  )

  -- A search that reports itself complete has asked every channel for every number, each query was
  -- answered by a single page, and that page held as many orders as its total says.
  pub exact_search-complete :
      (channels : List Channel) (merchant : String) (platform : Option String) (c : Client)
      (r : ExactSearchResult)
      → (exact_search site channels merchant platform c).0 ≡ ok r
      → r.complete ≡ true
      → WholeSearch site channels (lookups merchant platform) c
  unfolding exact_search
  exact_search-complete channels merchant platform c r q h =
      let (s, one, rest) =
        bind-ok (lookup_channels site channels (lookups merchant platform) _) _ c q in
      (lookup_channels-complete channels (lookups merchant platform) _ s c one (ground arith)).1
