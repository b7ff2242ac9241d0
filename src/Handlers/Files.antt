-- ===== src/Handlers/Files.antt =====
-- include/static_request_handler.h and src/static_request_handler.cc: files under a root directory.
pub mod Serving
use creeper_url_shortening_w.Config.{NginxConfigStatement, simple, block, statements, tokens}
use creeper_url_shortening_w.Http.{Request, Response, content_type, stock_404}
use creeper_url_shortening_w.Registry.{Created, returned, throws, undefined}
use creeper_url_shortening_w.Prelude.Assoc.{Assoc, lookup}
use creeper_url_shortening_w.Prelude.Text.{Bytes, codes, str_eq, back_is}
use creeper_url_shortening_w.Prelude.{
  ℕ, suc, ◌+◌, Bool, true, false, not, ◌&&◌, List, [], ◌∷◌, ◌++◌, Option, none, some, ltb, ◌==◌,
  length, drop, if◌then◌else◌,
}
use creeper_url_shortening_w.Handlers.{version_of}

-- What the handler asks of Boost.Filesystem and of `std::ifstream`, at one state of the disk. `none`
-- is a thrown `filesystem_error`, and for `contents_of` a stream that does not open.
pub record FileSystem : Type 0 where
  pub exists : Bytes → Option Bool
  pub is_regular_file : Bytes → Option Bool
  pub is_relative : Bytes → Bool
  pub canonical : Bytes → Option Bytes
  pub contents_of : Bytes → Option Bytes

-- `CONTENT_TYPE`
unfoldable pub content_types : Assoc Bytes
content_types =
    (codes "html", codes "text/html")
    ∷ (codes "txt", codes "text/plain")
    ∷ (codes "pdf", codes "application/pdf")
    ∷ (codes "zip", codes "application/zip")
    ∷ (codes "jpeg", codes "image/jpeg")
    ∷ (codes "jpg", codes "image/jpeg")
    ∷ (codes "css", codes "text/css")
    ∷ (codes "js", codes "application/javascript")
    ∷ []

-- `s.substr(n)`, which throws behind the end.
unfoldable pub substr : Bytes → ℕ → Option Bytes
substr s n = if ltb (length s) n then none else some (drop n s)

-- `s.find_last_of(c)`, `none` for `npos`
unfoldable pub find_last_of : Bytes → ℕ → Option ℕ
find_last_of [] c = none
find_last_of (x ∷ s) c = elim (find_last_of s c) [
  | some pos ↦ some (suc pos)
  | none ↦ if x == c then some 0 else none
]

-- The members of the handler.
pub record StaticRequestHandler : Type 0 where
  pub base_uri : Bytes
  pub root_path : Bytes

module _ (fs : FileSystem) where
  abbrev resolved : Option Bytes → Created Bytes
  resolved none = returned none
  resolved (some path) = returned (some path)

  -- the check of the path that `root` names; both blocks of the source catch what is thrown
  unfoldable pub create_at : Bytes → Created Bytes
  create_at root_path =
      if back_is b'/' root_path && not (str_eq root_path (codes "/"))
      then returned none
      else if fs.is_relative root_path
      then resolved (fs.canonical root_path)
      else elim (fs.exists root_path) [
        | some true ↦ resolved (fs.canonical root_path)
        | some false ↦ returned none
        | none ↦ returned none
      ]

  abbrev create_of_root : List Bytes → Created Bytes
  create_of_root (word ∷ root_path ∷ []) =
      if str_eq word (codes "root") then create_at root_path else returned none
  create_of_root _ = returned none

  abbrev create_of_statements : List NginxConfigStatement → Created Bytes
  create_of_statements (s ∷ []) = create_of_root (tokens s)
  create_of_statements _ = returned none

  -- `StaticRequestHandlerArgs::create_from_config`; the argument is the root path.
  unfoldable pub create_static : NginxConfigStatement → Created Bytes
  create_static (simple words) = undefined
  create_static (block words config) = create_of_statements (statements config)

  module _ (self : StaticRequestHandler) where
    unfoldable pub generate_file_path : Bytes → Option Bytes
    unfolding substr
    generate_file_path uri = elim (substr uri (length self.base_uri)) [
      | some rest ↦ some (self.root_path ++ rest)
      | none ↦ none
    ]

    -- `none` where a `substr` throws
    unfoldable pub file_extension : Bytes → Option Bytes
    unfolding substr find_last_of
    file_extension file_path = elim (substr file_path (length self.root_path)) [
      | some pure_file_path ↦ elim (find_last_of pure_file_path b'.') [
        | some pos ↦ substr file_path (pos + 1 + length self.root_path)
        | none ↦ some []
      ]
      | none ↦ none
    ]

    abbrev type_of_extension : Option Bytes → Bytes
    type_of_extension (some kind) = kind
    type_of_extension none = codes "application/octet-stream"

    unfoldable pub get_file_content_type : Bytes → Option Bytes
    unfolding file_extension
    get_file_content_type file_path = elim (file_extension file_path) [
      | some extension ↦ some (type_of_extension (lookup extension content_types))
      | none ↦ none
    ]

    -- The body of a stream that did not open is empty.
    abbrev contents : Option Bytes → Bytes
    contents (some body) = body
    contents none = []

    unfoldable pub serve_file : Request → Bytes → Option Response
    unfolding get_file_content_type
    serve_file request file_path = elim (get_file_content_type file_path) [
      | some kind ↦ some (record {
        version = version_of request;
        status_code = 200;
        status_message = codes "OK";
        headers = content_type kind;
        body = contents (fs.contents_of file_path);
      })
      | none ↦ none
    ]

    -- `exists(file_path) && is_regular_file(file_path)`, `none` where one of them throws
    unfoldable pub is_served : Bytes → Option Bool
    is_served file_path = elim (fs.exists file_path) [
      | some true ↦ fs.is_regular_file file_path
      | some false ↦ some false
      | none ↦ none
    ]

    unfoldable pub respond_with : Request → Bytes → Option Response
    unfolding serve_file is_served
    respond_with request file_path = elim (is_served file_path) [
      | some true ↦ serve_file request file_path
      | some false ↦ some stock_404
      | none ↦ none
    ]

    -- `none` where an exception leaves the handler.
    unfoldable pub handle_request : Request → Option Response
    unfolding generate_file_path respond_with
    handle_request request = elim (generate_file_path request.uri) [
      | some file_path ↦ respond_with request file_path
      | none ↦ none
    ]
