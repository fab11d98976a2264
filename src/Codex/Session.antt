-- ===== src/Codex/Session.antt =====
-- unraid-codex/web-src/src/protocol.ts: establishSession and refreshRuntimeCatalog, as functions of the replies that their calls
-- get (`none` is a rejected call), and the parameters of the calls that change servers and plugins.
use incus_unraid.Prelude.{
  ℕ, zero, suc, Bool, true, false, not, ◌&&◌, ◌≡◌, refl, ap, ◌∙◌, Option, none, some, List, [], ◌∷◌,
  ◌++◌, map, if◌then◌else◌, take, Text, codes, eq_text, trim,
}
use mathlib.Core.List.{append_assoc, append-nil}
use incus_unraid.Json.{Json, null, object, Fields, find, get, get?, text_of}
use incus_unraid.Codex.Values.{put?, or_else, present, fields_of, list_of, list_or, truthy}
use incus_unraid.Codex.State.{connected, CodexState}
use incus_unraid.Codex.Timeline.{flat_map, flatten_turns}

abbrev pub max_pages : ℕ
max_pages = 20

-- The cursor of the next page; an empty one ends the list
abbrev pub next_cursor : Json → Option Text
next_cursor reply = elim (text_of (get (codes "nextCursor") reply)) [
  | some (c ∷ cs) ↦ some (c ∷ cs)
  | _ ↦ none
]

abbrev pub page_data : Json → List Json
page_data reply = list_of (get (codes "data") reply)

module _ (page : Option Text → Option Json) where
  -- The loop of listAll, by the pages left
  unfoldable pub list_pages : ℕ → Option Text → List Json → Option (List Json)
  list_pages zero cursor data_ = some data_
  list_pages (suc n) cursor data_ = elim (page cursor) [
    | none ↦ none
    | some reply ↦ elim (next_cursor reply) [
      | none ↦ some (data_ ++ page_data reply)
      | some next ↦ list_pages n (some next) (data_ ++ page_data reply)
    ]
  ]

  unfoldable pub list_all : Option (List Json)
  unfolding list_pages
  list_all = list_pages max_pages none []

  -- The pages that a server gives from a cursor on, by following their cursors
  pub data Pages : Option Text → List (List Json) → Type 0 where
    last_page :
        {cursor : Option Text} (reply : Json)
        → page cursor ≡ some reply
        → next_cursor reply ≡ none
        → Pages cursor (page_data reply ∷ [])
    more_pages :
        {cursor : Option Text} (reply : Json) (next : Text) {rest : List (List Json)}
        → page cursor ≡ some reply
        → next_cursor reply ≡ some next
        → Pages (some next) rest
        → Pages cursor (page_data reply ∷ rest)

  abbrev pub joined : List (List Json) → List Json
  joined [] = []
  joined (xs ∷ rest) = xs ++ joined rest

  joined-take_nil : (n : ℕ) → joined (take n []) ≡ []
  joined-take_nil zero = refl
  joined-take_nil (suc n) = refl

  list_pages-joined :
      {cursor : Option Text} {pages : List (List Json)} (n : ℕ) (data_ : List Json)
      → Pages cursor pages
      → list_pages n cursor data_ ≡ some (data_ ++ joined (take n pages))
  unfolding list_pages
  list_pages-joined zero data_ p = rw (append-nil data_) refl
  list_pages-joined (suc n) data_ (last_page reply e f) =
      rw (e, list_pages)
        (rw (f, list_pages) (rw (joined-take_nil n) (rw (append-nil (page_data reply)) refl)))
  list_pages-joined {cursor = cursor} (suc n) data_ (more_pages reply next {rest = rest} e f p) =
      rw (e, list_pages)
        (rw (f, list_pages)
          (list_pages-joined {cursor = some next} n (data_ ++ page_data reply) p
            ∙ ap some (append_assoc data_ (page_data reply) (joined (take n rest)))))

  -- Where a server's pages end, listAll gives their items in order, of the first twenty pages: of a longer list the rest is left
  -- out without an error.
  pub list_all-joined :
      {pages : List (List Json)}
      → Pages none pages
      → list_all ≡ some (joined (take max_pages pages))
  unfolding list_all
  list_all-joined p = list_pages-joined max_pages [] p

-- The thread that is resumed or started: `resumed` is the reply to thread/resume where there was a stored thread, `started` the
-- reply to thread/start. With it, whether the stored id is removed.
pub record Thread : Type 0 where
  pub thread : Option Fields
  pub id : Option Text
  pub forgets : Bool

abbrev object_of : Option Json → Option Fields
object_of (some (object fields)) = some fields
object_of _ = none

abbrev thread_in : Json → Option Fields
thread_in reply = object_of (get (codes "thread") reply)

abbrev id_in : Option Fields → Option Text
id_in none = none
id_in (some fields) = text_of (find (codes "id") fields)

-- The part behind `if (!threadId)`
unfoldable pub start_thread : Option Json → Bool → Thread
start_thread started forgets = elim started [
  | none ↦ record { thread = none; id = none; forgets = forgets }
  | some reply ↦ record {
    thread = thread_in reply;
    id = id_in (thread_in reply);
    forgets = forgets;
  }
]

unfoldable pub choose_thread : Option Text → Option Json → Option Json → Thread
unfolding start_thread
choose_thread none resumed started = start_thread started false
choose_thread (some stored) none started = start_thread started true
choose_thread (some stored) (some reply) started = elim (id_in (thread_in reply)) [
  | none ↦ start_thread started false
  | some id ↦ record { thread = thread_in reply; id = some id; forgets = false }
]

-- The replies to the calls of establishSession, each with the value of its `catch`
pub record Replies : Type 0 where
  pub account : Json
  pub models : Option Json
  pub config : Option Json
  pub skills : Option Json
  pub hooks : Option Json
  pub permission_profiles : Option Json
  pub mcp_servers : Option (List Json)
  pub apps : Option (List Json)
  pub plugins : Option Json
  pub goal : Option Json
  pub rate_limits : Option Json

abbrev data_of : Option Json → List Json
data_of reply = list_of (get? (codes "data") reply)

abbrev or_empty : Option (List Json) → List Json
or_empty none = []
or_empty (some xs) = xs

-- The plugins of each marketplace with its name and its path
unfoldable pub plugins_of : Option Json → List Json
plugins_of reply =
    flat_map
      (λ marketplace.
        map
          (λ plugin. object (
            put? (codes "marketplacePath") (get (codes "path") marketplace) (
              put? (codes "marketplaceName") (get (codes "name") marketplace)
                (fields_of (some plugin)))))
          (list_of (get (codes "plugins") marketplace)))
      (list_of (get? (codes "marketplaces") reply))

-- The state behind establishSession
unfoldable pub established : Replies → Text → Option Fields → CodexState → CodexState
unfolding plugins_of
established r id thread s =
    let signed_in = truthy (get (codes "account") r.account) in
    record s {
      status = connected;
      status_text = if signed_in then codes "Connected" else codes "Connected. Sign-in required.";
      initialized = true;
      authenticated = signed_in;
      thread_id = some id;
      thread = thread;
      items = elim thread [ none ↦ s.items | some fields ↦ flatten_turns fields ];
      config = present (get? (codes "config") r.config);
      models = data_of r.models;
      skills = flat_map (λ entry. list_of (get (codes "skills") entry)) (data_of r.skills);
      hooks = flat_map (λ entry. list_of (get (codes "hooks") entry)) (data_of r.hooks);
      permission_profiles = data_of r.permission_profiles;
      mcp_servers = or_empty r.mcp_servers;
      apps = or_empty r.apps;
      plugins = plugins_of r.plugins;
      marketplace_errors = list_of (get? (codes "marketplaceLoadErrors") r.plugins);
      goal = present (get? (codes "goal") r.goal);
      rate_limits = present (get? (codes "rateLimits") r.rate_limits);
    }

-- The state behind refreshRuntimeCatalog; the call for the configuration is the one that may fail it
unfoldable pub refreshed : Json → Option Json → Option Json → Option Json → CodexState → CodexState
unfolding plugins_of
refreshed config mcp_servers plugins apps s = record s {
  config = or_else (get (codes "config") config) s.config;
  mcp_servers = elim mcp_servers [
    | none ↦ []
    | some r ↦ list_or (get (codes "data") r) s.mcp_servers
  ];
  apps = elim apps [ none ↦ [] | some r ↦ list_or (get (codes "data") r) s.apps ];
  plugins = plugins_of plugins;
  marketplace_errors = list_of (get? (codes "marketplaceLoadErrors") plugins);
}

-- An edit of the configuration: a value in place of the old one, `null` to remove it
pub record Edit : Type 0 where
  pub key_path : Text
  pub value : Json

-- The edits of saveMcpServer; `quote` is JSON.stringify of a text
unfoldable pub server_edits : (Text → Text) → Text → Option Text → Fields → List Edit
server_edits quote name previous config =
    let path = λ (t : Text). codes "mcp_servers." ++ quote (trim t) in
    let saved = record { key_path = path name; value = object config } ∷ [] in
    elim previous [
      | none ↦ saved
      | some old ↦
          if not (eq_text old []) && not (eq_text old name)
          then record { key_path = path old; value = null } ∷ saved
          else saved
    ]
