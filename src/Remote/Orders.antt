-- ===== src/Remote/Orders.antt =====
-- remote_charge_service.py: pages of charge orders, the fetch of all of them, and the exact search.
pub mod Pages
pub mod Exact
use raj_data_handle.Base.{
  ℕ, zero, suc, ◌+◌, String, Bool, true, false, not, ◌&&◌, ◌||◌, Option, none, some, List, [], ◌∷◌,
  ◌++◌, map, Result, ok, err, bind_result, Exception, type_error, value_error,
  remote_response_error, out_of_fuel, is_remote_error, ◌==◌, length, if◌then◌else◌,
}
use raj_data_handle.Base.Int.{ℤ, pos, eqb_ℤ, leb_ℤ, ltb_ℤ}
use raj_data_handle.Text.{is_empty}
use raj_data_handle.Value.{
  Value, int, text, list, dict, Items, nil, item, Fields, end, field, get, put, truthy, str_of,
  int_of,
}
use raj_data_handle.Remote.{Channel, response_data, get_json, charge_order_index_path}
use raj_data_handle.Remote.Session.{Client, Site, Action, pure, raise, lift, ◌>>=◌, ◌>>◌}

pub record PageInfo : Type 0 where
  pub total : ℤ
  pub current_page : ℤ
  pub total_page : ℤ

-- the arguments of a page request beside the page and the channel; an absent one is ""
pub record Query : Type 0 where
  pub create_start : String
  pub create_end : String
  pub order_num : String
  pub out_trade_no : String

-- `_charge_params`
unfoldable pub charge_params : ℕ → ℕ → String → Query → Fields
charge_params page_size page channel_code q = field "page" (int (pos page)) (
    field "pageSize" (int (pos page_size)) (
      field "create_time[0]" (text q.create_start) (
        field "create_time[1]" (text q.create_end) (
          field "uid" (text "") (
            field "first_pay" (text "") (
              field "order_num" (text q.order_num) (
                field "charge_id" (text "") (
                  field "charge_type" (text "") (
                    field "pay_channel_type" (text "") (
                      field "pay_channel_name" (text "") (
                        field "pay_method" (text channel_code) (
                          field "pay_type" (text "") (
                            field "out_trade_no" (text q.out_trade_no) (
                              field "status" (text "")
                                (field "recent" (int (pos 0)) end)))))))))))))))

-- `{**item, "_remote_channel_code": …, "_remote_channel_label": …}`
unfoldable pub labelled : Channel → Fields → Fields
labelled channel order =
    put "_remote_channel_label" (text channel.label)
      (put "_remote_channel_code" (text channel.code) order)

normalized : Channel → Items → Result (List Fields)
normalized channel nil = ok []
normalized channel (item (dict _ order) rest) =
    bind_result (normalized channel rest) λ orders. ok (labelled channel order ∷ orders)
normalized channel (item _ rest) = err remote_response_error

-- `int(value or default)`
unfoldable pub int_or : Value → ℕ → Result ℤ
int_or value default = if truthy value then int_of value else ok (pos default)

-- `except (TypeError, ValueError) as exc: raise RemoteResponseError`
abbrev as_response_error : {A : Type 0} → Result A → Result A
as_response_error (err type_error) = err remote_response_error
as_response_error (err value_error) = err remote_response_error
as_response_error r = r

page_info_of : ℕ → Fields → Result PageInfo
page_info_of page fields = as_response_error (
    bind_result (int_or (get "total" fields) 0) λ total.
      bind_result (int_or (get "currentPage" fields) page) λ current.
        bind_result (int_or (get "totalPage" fields) 0)
          λ pages. ok (record { total = total; current_page = current; total_page = pages }))

-- the orders of a page with its numbers; a page that answers for another one is refused
page_of : Channel → ℕ → Value → Value → Result (List Fields × PageInfo)
unfolding normalized page_info_of int_or
page_of channel page (list _ items) (dict _ info) = bind_result (normalized channel items) λ orders.
    bind_result (page_info_of page info) λ numbers.
      if eqb_ℤ numbers.current_page (pos page)
      then ok (orders, numbers)
      else err remote_response_error
page_of channel page _ _ = err remote_response_error

read_page : Channel → ℕ → Value → Result (List Fields × PageInfo)
unfolding page_of
read_page channel page (dict _ fields) =
    page_of channel page (get "items" fields) (get "pageInfo" fields)
read_page channel page _ = err remote_response_error

module _ (site : Site) where
  -- `_fetch_charge_page`
  unfoldable pub fetch_charge_page : Channel → ℕ → Query → Action (List Fields × PageInfo)
  unfolding read_page
  fetch_charge_page channel page query c =
      (do
        payload ←
            get_json site charge_order_index_path
              (charge_params c.page_size page channel.code query)
        found ← lift (response_data payload)
        lift (read_page channel page found))
        c

  -- The `while True` of one channel from `page` on, with the orders so far and the pages fetched
  -- so far. The fuel counts the rounds that are left.
  unfoldable pub fetch_pages :
      (fuel : ℕ) → Channel → Query → (page : ℕ) → List Fields → ℕ → Action (List Fields × ℤ × ℕ)
  fetch_pages zero channel query page orders fetched = raise out_of_fuel
  fetch_pages (suc fuel) channel query page orders fetched = do
    (items, info) ← fetch_charge_page channel page query
    let more = fetch_pages fuel channel query (page + 1) (orders ++ items) (fetched + 1)
    if ltb_ℤ (pos 100000) info.total_page
        then raise remote_response_error
        else if leb_ℤ info.total_page (pos page)
        then pure (orders ++ items, info.total, fetched + 1)
        else more

  -- the body of `for channel in channels`
  fetch_channel : (fuel : ℕ) → Channel → Query → ℕ → Action (List Fields × ℕ)
  fetch_channel fuel channel query fetched = do
    (orders, expected_total, fetched_pages) ← fetch_pages fuel channel query 1 [] fetched
    if eqb_ℤ (pos (length orders)) expected_total
        then pure (orders, fetched_pages)
        else raise remote_response_error

  unfoldable pub fetch_channels_from :
      (fuel : ℕ) → List Channel → Query → List Fields → ℕ → Action (List Fields × ℕ)
  unfolding fetch_channel
  fetch_channels_from fuel [] query orders fetched = pure (orders, fetched)
  fetch_channels_from fuel (channel ∷ channels) query orders fetched = do
    (more, fetched_pages) ← fetch_channel fuel channel query fetched
    fetch_channels_from fuel channels query (orders ++ more) fetched_pages

  -- `fetch_all_charge_orders`: no page beyond 100,000 is asked for, so that many rounds are enough
  unfoldable pub fetch_all_charge_orders :
      List Channel → (create_start create_end : String) → Action (List Fields × ℕ)
  fetch_all_charge_orders channels create_start create_end =
      fetch_channels_from 100000 channels
        (record {
          create_start = create_start;
          create_end = create_end;
          order_num = "";
          out_trade_no = "";
        })
        [] 0

pub record ExactSearchResult : Type 0 where
  pub orders : List Fields
  pub complete : Bool

-- the dict `found`, in insertion order
abbrev pub Found : Type 0
Found = List (String × Fields)

unfoldable pub insert : String → Fields → Found → Found
insert k v [] = (k, v) ∷ []
insert k v ((j, w) ∷ rest) = if j == k then (j, v) ∷ rest else (j, w) ∷ insert k v rest

-- `str(item.get("id") or item.get("order_num") or item.get("out_trade_no") or "")`
unfoldable pub identity : Fields → String
identity order =
    if truthy (get "id" order)
    then str_of (get "id" order)
    else if truthy (get "order_num" order)
    then str_of (get "order_num" order)
    else if truthy (get "out_trade_no" order)
    then str_of (get "out_trade_no" order)
    else ""

unfoldable pub collect : List Fields → Found → Found
unfolding identity
collect [] found = found
collect (order ∷ orders) found =
    collect orders
      (if is_empty (identity order) then found else insert (identity order) order found)

pub record Search : Type 0 where
  pub found : Found
  pub complete : Bool

-- one lookup: a remote error or a page that is not the whole answer leaves it incomplete
after_lookup : Search → Result (List Fields × PageInfo) → Client → Result Search × Client
unfolding collect
after_lookup s (ok (items, info)) c = (
  ok (record {
    found = collect items s.found;
    complete =
        if ltb_ℤ (pos 1) info.total_page || not (eqb_ℤ (pos (length items)) info.total)
        then false
        else s.complete;
  }),
  c,
)
after_lookup s (err e) c =
    if is_remote_error e then (ok (record s { complete = false }), c) else (err e, c)

module _ (site : Site) where
  lookup_one : Channel → Query → Search → Action Search
  unfolding after_lookup
  lookup_one channel query s c =
      let (r, c') = fetch_charge_page site channel 1 query c in after_lookup s r c'

  lookup_all : Channel → List Query → Search → Action Search
  lookup_all channel [] s = pure s
  lookup_all channel (query ∷ queries) s = do
    s' ← lookup_one channel query s
    lookup_all channel queries s'

  lookup_channels : List Channel → List Query → Search → Action Search
  lookup_channels [] queries s = pure s
  lookup_channels (channel ∷ channels) queries s = do
    s' ← lookup_all channel queries s
    lookup_channels channels queries s'

-- `lookups`
abbrev pub by_order_num : String → Query
by_order_num n = record { create_start = ""; create_end = ""; order_num = n; out_trade_no = "" }

abbrev pub by_out_trade_no : String → Query
by_out_trade_no n = record { create_start = ""; create_end = ""; order_num = ""; out_trade_no = n }

abbrev pub lookups : String → Option String → List Query
lookups merchant none = by_order_num merchant ∷ []
lookups merchant (some platform) =
    if is_empty platform
    then by_order_num merchant ∷ []
    else by_order_num merchant ∷ by_out_trade_no platform ∷ []

abbrev values : Found → List Fields
values found = map (λ (entry : String × Fields). entry.1) found

module _ (site : Site) where
  unfoldable pub exact_search : List Channel → String → Option String → Action ExactSearchResult
  unfolding lookup_channels lookup_all lookup_one
  exact_search channels merchant_order_no platform_order_no = do
    s ←
        lookup_channels site channels (lookups merchant_order_no platform_order_no)
          (record { found = []; complete = true })
    pure (record { orders = values s.found; complete = s.complete })
