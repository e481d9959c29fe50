-- ===== src/Remote/Tests.antt =====
-- RajAdminChargeClient against a site that answers with one page.
use raj_data_handle.Base.{
  ℕ, ◌≡◌, refl, ◌⊎◌, true, none, some, List, [], ◌∷◌, ok, err, Exception, overflow_error,
}
use raj_data_handle.Base.Int.{pos}
use raj_data_handle.Value.{
  Value, text, int, float, infinite, list, dict, nil, Fields, end, field, get, truthy, int_of,
}
use raj_data_handle.Remote.{Channel, get_json, login, response_data}
use raj_data_handle.Remote.Session.{
  Request, post_login, get_path, Response, response, answered, Client, Site, ◌>>=◌, send,
}
use raj_data_handle.Remote.ReadOnly.{HasOnlyRead, IsClientError, IsUnexpected}
use raj_data_handle.Remote.Orders.{
  ExactSearchResult, fetch_charge_page, fetch_all_charge_orders, lookups, exact_search,
}
use raj_data_handle.Remote.Orders.Pages.{fetch_all-ends}
use raj_data_handle.Remote.Orders.Exact.{
  WholeSearch, exact_search-raises, searches-HasOnlyRead, exact_search-complete,
}

-- one page without orders, with that total of pages
abbrev page : Value → Value
page total_page = dict "" (
    field "data"
      (dict "" (
        field "items" (list "" nil) (
          field "pageInfo"
            (dict "" (field "total" (int (pos 0)) (field "totalPage" total_page end))) end)))
      end)

abbrev answer : Value → Request → Response
answer total_page (post_login _ _ _) = response 200 (some (dict "" (field "token" (text "t") end)))
answer total_page (get_path _ _ _) = response 200 (some (page total_page))

abbrev site_of : Value → Site
site_of total_page = record {
  respond = λ sent r. answered (answer total_page r);
  generate_totp = λ sent secret. some "000000";
  token_keys = "token" ∷ [];
}

abbrev client : Client
client = record {
  username = "u";
  password = "p";
  totp_secret = "s";
  page_size = 100;
  token = some "t";
  sent = [];
}

abbrev channels : List Channel
channels = record { code = "c"; label = "C" } ∷ []

abbrev whole : Site
whole = site_of (int (pos 1))

abbrev endless : Site
endless = site_of (float "inf" infinite)

fetch_all-ends_example :
    ((got : List Fields × ℕ) × ((fetch_all_charge_orders whole channels "a" "b" client).0 ≡ ok got))
    ⊎ ((e : Exception) × ((fetch_all_charge_orders whole channels "a" "b" client).0 ≡ err e)
        × IsClientError e)
fetch_all-ends_example = fetch_all-ends whole channels "a" "b" client

endless_run : (exact_search endless channels "A1" none client).0 ≡ err overflow_error
unfolding exact_search ◌>>=◌ fetch_charge_page get_json login send response_data get truthy int_of
endless_run = refl

exact_search-raises_example : IsUnexpected overflow_error
exact_search-raises_example =
    exact_search-raises endless channels "A1" none client overflow_error endless_run

abbrev nothing_found : ExactSearchResult
nothing_found = record { orders = []; complete = true }

search_run : (exact_search whole channels "A1" none client).0 ≡ ok nothing_found
unfolding exact_search ◌>>=◌ fetch_charge_page get_json login send response_data get truthy int_of
search_run = refl

exact_search-complete_example : WholeSearch whole channels (lookups "A1" none) client
exact_search-complete_example =
    exact_search-complete whole channels "A1" none client nothing_found search_run refl

searches-HasOnlyRead_example :
    HasOnlyRead (fetch_all_charge_orders whole channels "a" "b" client).1
    × HasOnlyRead (exact_search whole channels "A1" none client).1
searches-HasOnlyRead_example = searches-HasOnlyRead whole channels "a" "b" "A1" none client tt
