-- ===== src/Transport/Mounting/Handshake.antt =====
-- Handshakes under the path that the app is mounted at.
use Prim.Native.Char.{Char}
use transcribe_service.Prelude.{
  String, ◌≡◌, ◌∙◌, ap, sym, refl, Bool, true, false, ◌==◌, eq_iff, Bool-cases, is_some, subst, inl,
  inr, arith,
}
use transcribe_service.Prelude.Exec.{ok}
use transcribe_service.Prelude.Text.{append, starts_with, same_char}
use transcribe_service.Prelude.Result.{ok_injective, first_of_chain}
use transcribe_service.Settings.Prefix.{normalize_url_path_prefix_str}
use transcribe_service.Settings.Prefix.Shape.{IsPrefix, normalize_url_path_prefix_str-IsPrefix}
use transcribe_service.Transport.Admission.{
  Scope, Guards, Moment, normalize_ws_path, after_prefix, call,
}
use transcribe_service.Transport.Mounting.{
  InnerApp, ServedApp, create_app, inner_of, path_of, served_app, create_transport_fastapi_app,
}

same_char_refl : (c : Char) → same_char c c ≡ true
same_char_refl c = ground arith

starts_with-append : (p s : String) → starts_with (append p s) p ≡ true
unfolding starts_with
starts_with-append String.[] s = refl
starts_with-append (String.◌∷◌ c p) s = rw (same_char_refl c) (starts_with-append p s)

after_prefix-append : (p s : String) → after_prefix p (append p s) ≡ s
unfolding after_prefix
after_prefix-append String.[] s = refl
after_prefix-append (String.◌∷◌ c p) s = after_prefix-append p s

-- A request for this path under that root.
abbrev pub at : String → String → Scope → Scope
at root path scope = record scope { root_path = root; path = append root path }

normalize_ws_path-at :
    (root path : String) (scope : Scope)
    → (path == "") ≡ false
    → normalize_ws_path (at root path scope) ≡ path
unfolding normalize_ws_path
normalize_ws_path-at root path scope some_path = elim (Bool-cases (root == "")) [
  | inl e ↦ rw e (ap (λ x. append x path) ((eq_iff root "").0 e))
  | inr e ↦ rw (e, starts_with-append root path, after_prefix-append root path, some_path) refl
]

-- The documents of the API are served exactly if they should be.
abbrev pub Documented : Bool → InnerApp → Type 0
Documented enabled app =
    (is_some app.docs_url ≡ enabled)
    × (is_some app.redoc_url ≡ enabled)
    × (is_some app.openapi_url ≡ enabled)

served-Documented :
    (enabled : Bool) (mount : String) → Documented enabled (inner_of (served_app enabled mount))
unfolding served_app create_transport_fastapi_app
served-Documented enabled mount = ground arith

served-paths :
    (enabled : Bool) (mount : String)
    → ((inner_of (served_app enabled mount)).root_path ≡ mount)
      × (path_of (served_app enabled mount) ≡ mount)
unfolding served_app create_transport_fastapi_app
served-paths enabled mount = elim (Bool-cases (mount == "")) [
  | inl e ↦ rw e (refl, sym ((eq_iff mount "").0 e))
  | inr e ↦ rw e (refl, refl)
]

call-at :
    {W : Type 0} (g : Guards W) (m : Moment) (root path : String) (scope : Scope) (w : W)
    → (path == "") ≡ false
    → call g m (at root path scope) w ≡ call g m (at "" path scope) w
unfolding call
call-at g m root path scope w some_path =
    rw
      (normalize_ws_path-at root path scope some_path, normalize_ws_path-at "" path scope some_path)
      refl

-- What the served app `app` is, for requests of this path below its root.
pub record IsMounted {W : Type 0} (g : Guards W) (m : Moment) (path : String) (scope : Scope)
    (w : W) (enabled : Bool) (app : ServedApp) : Type 0 where
  pub prefix : IsPrefix (path_of app)
  pub root : (inner_of app).root_path ≡ path_of app
  pub documents : Documented enabled (inner_of app)
  pub handshake : call g m (at (path_of app) path scope) w ≡ call g m (at "" path scope) w

-- A served app is mounted at a normalised prefix, which is the root path of the inner app; it has the three
-- documents of the API exactly if they are enabled; and the middleware decides a request whose path is not
-- empty below that prefix as it decides it without a prefix, with the same calls of the guard.
pub create_app-IsMounted :
    {W : Type 0} (g : Guards W) (m : Moment) (path : String) (scope : Scope) (w : W)
    (url_path_prefix : String) (enabled : Bool) (app : ServedApp)
    → (path == "") ≡ false
    → create_app url_path_prefix enabled ≡ ok app
    → IsMounted g m path scope w enabled app
unfolding create_app
create_app-IsMounted g m path scope w url_path_prefix enabled app some_path created =
    let (mount, normal, returned) =
      first_of_chain (normalize_url_path_prefix_str url_path_prefix)
        (λ p. ok (served_app enabled p)) created in
    let paths = served-paths enabled mount in
    subst (IsMounted g m path scope w enabled) (ok_injective returned) record {
      prefix =
          subst IsPrefix (sym paths.1)
            (normalize_url_path_prefix_str-IsPrefix url_path_prefix mount normal);
      root = paths.0 ∙ sym paths.1;
      documents = served-Documented enabled mount;
      handshake = call-at g m (path_of (served_app enabled mount)) path scope w some_path;
    }
