-- ===== src/Tests/Handshakes.antt =====
-- The theorems on the URL prefix and the app that is mounted under it.
use transcribe_service.Prelude.{String, ℕ, ◌≡◌, refl, true, false, none, [], ◌∷◌}
use transcribe_service.Prelude.Exec.{ok}
use transcribe_service.Settings.Prefix.{normalize_url_path_prefix_str}
use transcribe_service.Settings.Prefix.Shape.{IsPrefix, normalize_url_path_prefix_str-IsPrefix}
use transcribe_service.Transport.Registry.{pos}
use transcribe_service.Transport.Admission.{Guards, Moment, Scope, ws_path, normalize_ws_path}
use transcribe_service.Transport.Mounting.{ServedApp, create_app, served_app}
use transcribe_service.Transport.Mounting.Handshake.{IsMounted, create_app-IsMounted}

abbrev open_guards : Guards ℕ
open_guards = record { max_connections = 0; auth_backend = none; ownership_guard = none }

abbrev draining : Moment
draining = record { draining = true; active_count = pos 0; fresh_token = "t"; now = "now" }

abbrev request : Scope
request = record {
  is_websocket = true;
  path = "/ws/v1/realtime-transcriptions";
  root_path = "";
  query = ("conversationId", "c-1" ∷ []) ∷ [];
  headers = [];
}

request_path : normalize_ws_path request ≡ ws_path
unfolding normalize_ws_path
request_path = refl

abbrev abc_path : String
abc_path = "/abc/def"

normalised : normalize_url_path_prefix_str " abc//def// " ≡ ok abc_path
unfolding normalize_url_path_prefix_str
normalised = refl

prefix_example : IsPrefix abc_path
prefix_example = normalize_url_path_prefix_str-IsPrefix " abc//def// " abc_path normalised

abbrev below_abc : ServedApp
unfolding served_app
below_abc = served_app false abc_path

app_is_created : create_app " abc//def// " false ≡ ok below_abc
unfolding create_app
app_is_created = refl

create_app-IsMounted_example : IsMounted open_guards draining ws_path request 0 false below_abc
create_app-IsMounted_example =
    create_app-IsMounted open_guards draining ws_path request 0 " abc//def// " false below_abc refl
      app_is_created
