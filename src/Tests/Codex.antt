-- ===== src/Tests/Codex.antt =====
-- The theorems on protocol.ts at concrete inputs.
use incus_unraid.Prelude.{
  ℕ, ◌≡◌, refl, ◌⊎◌, inl, true, false, Option, none, some, List, [], ◌∷◌, All, Text, codes, eq_text,
  text_eq, starts_with, lookup, take,
}
use incus_unraid.Json.{pos, Json, string, array, object, nil, cons, Fields, empty, field, find, get}
use incus_unraid.Codex.State.{TimelineItem, numeric, textual, ServerRequest, initial_state}
use incus_unraid.Codex.Timeline.{blank, is_approval_request, string_of_id}
use incus_unraid.Codex.Notifications.{Env, View, method_of}
use incus_unraid.Codex.Client.{Client, open_, initial, result, rpc}
use incus_unraid.Codex.Actions.{connect, close}
use incus_unraid.Codex.Requests.{answer_request, has_local, queue_app_request}
use incus_unraid.Codex.Steps.{
  connects, opened, received, sends, inputs_ready, closes, called, step, run,
}
use incus_unraid.Codex.Once.{Inv, count, given_out}
use incus_unraid.Codex.Runs.{run-Inv}
use incus_unraid.Codex.Acted.{close-settles}
use incus_unraid.Codex.Stream.{Delta, Fits, entry_at, text_at, stream, stream_lem}
use incus_unraid.Codex.Answers.{IsAnswered, Tells, Placed, answer_request_lem}
use incus_unraid.Codex.Apps.{Added, Fate, answer_request-Fate}
use incus_unraid.Codex.Session.{
  list_all, Pages, last_page, more_pages, page_data, joined, list_all-joined, max_pages,
}

abbrev env : Env
env = record {
  now = 5000;
  uuid = codes "u1";
  stringify = λ params. codes "{}";
  type_error = codes "undefined";
}

-- Every text is an address of the web
abbrev web : Text → Option (Text × Text)
web url = some (url, codes "https:")

abbrev thread : Text
thread = codes "t1"

abbrev up : Client
up = record (initial (some thread)) { socket = open_ }

run-Inv_example : Inv (
    run web
      (connects
        ∷ opened
        ∷ sends env (codes "hi")
        ∷ inputs_ready env thread (codes "hi") []
        ∷ called env (codes "model/list") empty
        ∷ received env (field (codes "id") (string (codes "2")) empty)
        ∷ closes env
        ∷ [])
      (initial (some thread)))
run-Inv_example = run-Inv web (some thread) (
    connects
    ∷ opened
    ∷ sends env (codes "hi")
    ∷ inputs_ready env thread (codes "hi") []
    ∷ called env (codes "model/list") empty
    ∷ received env (field (codes "id") (string (codes "2")) empty)
    ∷ closes env
    ∷ [])

abbrev calling : Client
calling = run web (connects ∷ opened ∷ called env (codes "model/list") empty ∷ []) (initial none)

calling-live : calling.disposed ≡ false
unfolding run step connect rpc
calling-live = refl

close-settles_example :
    ((close env calling).pending ≡ [])
    × ((id : ℕ) → count id (close env calling).settled ≡ given_out id calling.next_id)
    × ((close env calling).view.active_turn ≡ none)
close-settles_example =
    close-settles env calling
      (run-Inv web none (connects ∷ opened ∷ called env (codes "model/list") empty ∷ []))
      calling-live

abbrev message : TimelineItem
message = record (blank (codes "m1")) {
  item =
      field (codes "id") (string (codes "m1")) (field (codes "text") (string (codes "He")) empty);
}

abbrev talking : View
talking = record {
  state = record (initial_state (some thread)) { items = message ∷ blank (codes "m2") ∷ [] };
  thread = some thread;
  active_turn = none;
}

abbrev delta : Text → Text → Fields → Delta
delta id text more = record {
  name = codes "item/agentMessage/delta";
  at = codes "text";
  id = id;
  params =
      field (codes "threadId") (string thread)
        (field (codes "itemId") (string id) (field (codes "delta") (string text) more));
}

-- Two items in turn
abbrev deltas : List Delta
deltas =
    delta (codes "m1") (codes "l") empty
    ∷ delta (codes "m2") (codes "x") empty
    ∷ delta (codes "m1") (codes "lo") empty
    ∷ []

deltas-Fits : All (Fits (codes "m1") (codes "text")) deltas
unfolding method_of lookup find eq_text
deltas-Fits = (
  (inl (refl, refl, refl), inl refl),
  ((inl (refl, refl, refl), inl refl), ((inl (refl, refl, refl), inl refl), tt)),
)

entry_at-message : entry_at (codes "m1") talking.state.items ≡ some message
unfolding entry_at eq_text
entry_at-message = refl

stream_lem_example :
    (e' : TimelineItem) × (entry_at (codes "m1") (stream env deltas talking).state.items ≡ some e')
    × (text_at (codes "text") e' ≡ codes "Hello")
    × ((other : Text)
        → (eq_text (codes "text") other ≡ true) ⊎ (find other e'.item ≡ find other message.item))
unfolding find eq_text
stream_lem_example =
    stream_lem env (codes "text") (codes "m1") deltas talking message deltas-Fits entry_at-message

abbrev sent_view : View
sent_view = record talking {
  state = record talking.state {
    items = record (blank (codes "local-1")) { turn_id = codes "pending" } ∷ talking.state.items;
  };
}

abbrev own_item : Fields
own_item =
    field (codes "id") (string (codes "m9"))
      (field (codes "type") (string (codes "userMessage")) empty)

abbrev own_params : Fields
own_params = field (codes "item") (object own_item) empty

abbrev approval : ServerRequest
approval = record {
  id = numeric (pos 7);
  method = codes "execCommandApproval";
  params = field (codes "itemId") (string (codes "m2")) empty;
}

abbrev asked : Client
asked = record up {
  view = record talking { state = record talking.state { requests = approval ∷ [] } };
}

abbrev yes : Fields
yes = field (codes "decision") (string (codes "accept")) empty

approval-server : starts_with approval.method (codes "mcpApp/") ≡ false
unfolding starts_with
approval-server = refl

answer_request_example :
    ((answer_request web env approval yes asked).sent ≡ result approval.id yes ∷ [])
    × IsAnswered approval.id (answer_request web env approval yes asked).view.state.requests
    × (((is_approval_request approval.method ≡ true)
          × ((entry : TimelineItem) × Tells approval (codes "accept") entry
              × Placed
                  (some (codes "m2"))
                  entry
                  asked.view.state.items
                  (answer_request web env approval yes asked).view.state.items))
        ⊎ ((is_approval_request approval.method ≡ false)
            × ((answer_request web env approval yes asked).view.state.items
                ≡ asked.view.state.items)))
unfolding find eq_text
answer_request_example = answer_request_lem web env approval yes asked approval-server refl

abbrev link : ServerRequest
link = record {
  id = textual (codes "mcp-app-u1");
  method = codes "mcpApp/openLink/requestApproval";
  params = field (codes "url") (string (codes "https://a")) empty;
}

abbrev linking : Client
linking = queue_app_request env link.method link.params up

link-app : starts_with link.method (codes "mcpApp/") ≡ true
unfolding starts_with
link-app = refl

answer_request-Fate_example :
    (has_local (string_of_id link.id) (answer_request web env link yes linking).local ≡ false)
    × (((has_local (string_of_id link.id) linking.local ≡ true)
          × Fate web link yes linking (answer_request web env link yes linking))
        ⊎ ((has_local (string_of_id link.id) linking.local ≡ false)
            × Added linking (answer_request web env link yes linking) [] []))
answer_request-Fate_example = answer_request-Fate web env link yes linking link-app

-- A list of two pages
abbrev first_page : Json
first_page = object (
    field (codes "data") (array (cons (string (codes "a")) nil))
      (field (codes "nextCursor") (string (codes "c")) empty))

abbrev second_page : Json
second_page = object (field (codes "data") (array (cons (string (codes "b")) nil)) empty)

abbrev pages : Option Text → Option Json
pages none = some first_page
pages (some cursor) = some second_page

two_pages : Pages pages none (page_data first_page ∷ page_data second_page ∷ [])
unfolding find get eq_text
two_pages = more_pages first_page (codes "c") refl refl (last_page second_page refl refl)

list_all-joined_example :
    list_all pages
    ≡ some (joined pages (take max_pages (page_data first_page ∷ page_data second_page ∷ [])))
list_all-joined_example = list_all-joined pages two_pages
