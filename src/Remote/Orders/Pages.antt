-- ===== src/Remote/Orders/Pages.antt =====
-- remote_charge_service.py: how `_fetch_charge_page` and `fetch_all_charge_orders` end, and what
-- they send.
use raj_data_handle.Base.{
  ℕ, zero, suc, ◌+◌, ◌≤◌, ◌<◌, ◌≡◌, refl, ◌⊎◌, inl, inr, String, false, List, ◌∷◌, [], ◌++◌, Result,
  ok, err, Exception, overflow_error, arith, length, bind-raises, type_error, value_error,
}
use raj_data_handle.Base.Int.{ℤ, pos, eqb_ℤ, leb_ℤ, ltb_ℤ}
use raj_data_handle.Value.{Value, dict, list, Items, nil, item, Fields, get, int_of}
use raj_data_handle.Remote.{Channel, response_data, charge_order_index_path}
use raj_data_handle.Remote.Orders.{
  Query, normalized, int_or, as_response_error, page_info_of, page_of, read_page, fetch_charge_page,
  fetch_pages, fetch_channel, fetch_channels_from, fetch_all_charge_orders,
}
use raj_data_handle.Remote.Session.{Client, Site}
use raj_data_handle.Remote.Rules.{
  Runs, Runs-pure, Runs-raise, Runs-lift, Runs-if, Runs-bind, Runs-read,
}
use raj_data_handle.Remote.ReadOnly.{HasOnlyRead, IsClientError, response_allowed, get_json-Runs}

response_data-raises : (v : Value) (e : Exception) → response_data v ≡ err e → IsClientError e
unfolding response_data
response_data-raises v e h = ground arith

int_of-raises :
    (v : Value) (e : Exception)
    → int_of v ≡ err e
    → (e ≡ type_error) ⊎ (e ≡ value_error) ⊎ (e ≡ overflow_error)
unfolding int_of
int_of-raises v e h = ground arith

abbrev IsNumberError : Exception → Type 0
IsNumberError e = (e ≡ type_error) ⊎ (e ≡ value_error) ⊎ (e ≡ overflow_error)

int_or-raises : (v : Value) (n : ℕ) (e : Exception) → int_or v n ≡ err e → IsNumberError e
unfolding int_or
int_or-raises v n e h = ground (arith, int_of-raises v e)

as_response_error-raises :
    {A : Type 0} (r : Result A) (e : Exception)
    → ((x : Exception) → r ≡ err x → IsNumberError x)
    → as_response_error r ≡ err e
    → IsClientError e
as_response_error-raises (ok a) e h q = cc
as_response_error-raises (err x) e h q = ground (arith, h x refl)

page_info_of-raises :
    (page : ℕ) (fields : Fields) (e : Exception)
    → page_info_of page fields ≡ err e
    → IsClientError e
unfolding page_info_of
page_info_of-raises page fields e h =
    as_response_error-raises _ e
      (bind-raises IsNumberError _ _ (int_or-raises (get "total" fields) 0) λ total.
        bind-raises IsNumberError _ _ (int_or-raises (get "currentPage" fields) page) λ current.
          bind-raises IsNumberError _ _ (int_or-raises (get "totalPage" fields) 0) λ pages x q. cc)
      h

normalized-raises :
    (channel : Channel) (items : Items) (e : Exception)
    → normalized channel items ≡ err e
    → IsClientError e
unfolding normalized
normalized-raises channel nil e h = ground arith
normalized-raises channel (item (dict shown order) rest) e h =
    ground (arith, normalized-raises channel rest e)
normalized-raises channel (item _ rest) e h = ground arith

page_of-raises :
    (channel : Channel) (page : ℕ) (items info : Value) (e : Exception)
    → page_of channel page items info ≡ err e
    → IsClientError e
unfolding page_of
page_of-raises channel page (list shown items) (dict text fields) e h =
    ground (arith, normalized-raises channel items e, page_info_of-raises page fields e)
page_of-raises channel page items info e h = ground arith

read_page-raises :
    (channel : Channel) (page : ℕ) (v : Value) (e : Exception)
    → read_page channel page v ≡ err e
    → IsClientError e
unfolding read_page
read_page-raises channel page (dict shown fields) e h =
    page_of-raises channel page (get "items" fields) (get "pageInfo" fields) e h
read_page-raises channel page _ e h = ground arith

next_page :
    (t : ℤ) (page : ℕ)
    → ltb_ℤ (pos 100000) t ≡ false
    → leb_ℤ t (pos page) ≡ false
    → page + 1 ≤ 100000
next_page t page small more = ground arith

ended :
    {A : Type 0} (r : Result A)
    → ((e : Exception) → r ≡ err e → IsClientError e)
    → ((a : A) × (r ≡ ok a)) ⊎ ((e : Exception) × (r ≡ err e) × IsClientError e)
ended (ok a) h = inl (a, refl)
ended (err e) h = inr (e, refl, h e refl)

module _ (site : Site) where
  pub fetch_charge_page-Runs :
      (channel : Channel) (page : ℕ) (query : Query)
      → Runs HasOnlyRead IsClientError (fetch_charge_page site channel page query)
  unfolding fetch_charge_page
  fetch_charge_page-Runs channel page query = Runs-read _ λ c.
      Runs-bind _ _ (get_json-Runs site charge_order_index_path _) λ payload.
        Runs-bind _ _ (Runs-lift _ (response_data-raises payload))
          λ found. Runs-lift _ (read_page-raises channel page found)

  -- with rounds left for every page up to 100,000
  fetch_pages-Runs :
      (fuel : ℕ) (channel : Channel) (query : Query) (page : ℕ) (orders : List Fields) (fetched : ℕ)
      → page ≤ 100000
      → 100000 < page + fuel
      → Runs HasOnlyRead IsClientError (fetch_pages site fuel channel query page orders fetched)
  unfolding fetch_pages
  fetch_pages-Runs zero channel query page orders fetched h k = absurd (omega arith)
  fetch_pages-Runs (suc fuel) channel query page orders fetched h k =
      Runs-bind _ _ (fetch_charge_page-Runs channel page query) λ got.
        Runs-if (ltb_ℤ (pos 100000) got.1.total_page) _ _ (λ _. Runs-raise _ response_allowed)
          λ small.
            Runs-if (leb_ℤ got.1.total_page (pos page)) _ _ (λ _. Runs-pure _)
              λ more.
                fetch_pages-Runs fuel channel query (page + 1) (orders ++ got.0) (fetched + 1)
                  (next_page got.1.total_page page small more) (omega arith)

  fetch_channel-Runs :
      (channel : Channel) (query : Query) (fetched : ℕ)
      → Runs HasOnlyRead IsClientError (fetch_channel site 100000 channel query fetched)
  unfolding fetch_channel
  fetch_channel-Runs channel query fetched =
      Runs-bind _ _ (fetch_pages-Runs 100000 channel query 1 [] fetched (omega arith) (omega arith))
        λ got.
          Runs-if (eqb_ℤ (pos (length got.0)) got.1) _ _ (λ _. Runs-pure _)
            λ _. Runs-raise _ response_allowed

  fetch_channels_from-Runs :
      (channels : List Channel) (query : Query) (orders : List Fields) (fetched : ℕ)
      → Runs HasOnlyRead IsClientError
          (fetch_channels_from site 100000 channels query orders fetched)
  unfolding fetch_channels_from
  fetch_channels_from-Runs [] query orders fetched = Runs-pure _
  fetch_channels_from-Runs (channel ∷ channels) query orders fetched =
      Runs-bind _ _ (fetch_channel-Runs channel query fetched)
        λ got. fetch_channels_from-Runs channels query (orders ++ got.0) got.1

  -- both facts of the next two theorems
  pub fetch_all-Runs :
      (channels : List Channel) (create_start create_end : String)
      → Runs HasOnlyRead IsClientError
          (fetch_all_charge_orders site channels create_start create_end)
  unfolding fetch_all_charge_orders
  fetch_all-Runs channels create_start create_end = fetch_channels_from-Runs channels _ [] 0

  -- From a client that has sent only logins and allowed reads, the fetch of all pages sends only
  -- such requests, however it ends.
  pub fetch_all-HasOnlyRead :
      (channels : List Channel) (create_start create_end : String) (c : Client)
      → HasOnlyRead c
      → HasOnlyRead (fetch_all_charge_orders site channels create_start create_end c).1
  fetch_all-HasOnlyRead channels create_start create_end =
      (fetch_all-Runs channels create_start create_end).keeps

  -- Whatever the site answers and whatever the HTTP library raises, the fetch of all pages ends within
  -- its 100,000 rounds for each channel: it returns, or it raises an error of the client, an
  -- `OverflowError`, a `ValueError`, or an exception of the libraries that no handler names.
  pub fetch_all-ends :
      (channels : List Channel) (create_start create_end : String) (c : Client)
      → ((got : List Fields × ℕ) × ((fetch_all_charge_orders site channels create_start create_end
              c).0
            ≡ ok got))
        ⊎ ((e : Exception) × ((fetch_all_charge_orders site channels create_start create_end c).0
              ≡ err e)
            × IsClientError e)
  fetch_all-ends channels create_start create_end c =
      ended (fetch_all_charge_orders site channels create_start create_end c).0
        ((fetch_all-Runs channels create_start create_end).raises c)
