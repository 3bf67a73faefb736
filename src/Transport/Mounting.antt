-- ===== src/Transport/Mounting.antt =====
-- `create_app` of transport/app.py: where the routes are mounted and which documents are served. The
-- other arguments of the factory go to the middleware, the endpoint and the probes as they are.
pub mod Handshake
use transcribe_service.Prelude.{String, Bool, true, false, Option, none, some, ◌==◌, if◌then◌else◌}
use transcribe_service.Prelude.Result.{◌>>=◌}
use transcribe_service.Prelude.Exec.{Result, ok}
use transcribe_service.Settings.Prefix.{normalize_url_path_prefix_str}

-- The inner app, as `_create_transport_fastapi_app` builds it.
pub record InnerApp : Type 0 where
  pub docs_url : Option String
  pub redoc_url : Option String
  pub openapi_url : Option String
  pub root_path : String

-- The app that is served: the inner one, or a root app without documents that mounts it at a path.
pub data ServedApp : Type 0 where
  inner : InnerApp → ServedApp
  mounted : String → InnerApp → ServedApp

abbrev only_if : Bool → String → Option String
only_if b s = if b then some s else none

unfoldable pub create_transport_fastapi_app : Bool → String → InnerApp
create_transport_fastapi_app http_enable_docs openapi_root_path = record {
  docs_url = only_if http_enable_docs "/docs";
  redoc_url = only_if http_enable_docs "/redoc";
  openapi_url = only_if http_enable_docs "/openapi.json";
  root_path = openapi_root_path;
}

unfoldable pub served_app : Bool → String → ServedApp
unfolding create_transport_fastapi_app
served_app http_enable_docs mount_path =
    let app = create_transport_fastapi_app http_enable_docs mount_path in
    if mount_path == "" then inner app else mounted mount_path app

unfoldable pub create_app : String → Bool → Result ServedApp
unfolding normalize_url_path_prefix_str served_app
create_app url_path_prefix http_enable_docs = do
  mount_path ← normalize_url_path_prefix_str url_path_prefix
  ok (served_app http_enable_docs mount_path)

abbrev pub inner_of : ServedApp → InnerApp
inner_of (inner app) = app
inner_of (mounted path app) = app

abbrev pub path_of : ServedApp → String
path_of (inner app) = ""
path_of (mounted path app) = path
