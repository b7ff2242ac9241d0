-- ===== src/Handlers/Files/Serving.antt =====
-- Which file a request gets, and as what type.
use creeper_url_shortening_w.Http.{Request, content_type}
use creeper_url_shortening_w.Prelude.Assoc.{lookup}
use creeper_url_shortening_w.Prelude.Text.{Bytes, codes}
use creeper_url_shortening_w.Prelude.{
  ℕ, ◌+◌, true, false, ◌≡◌, refl, sym, ap, ◌∙◌, [], ◌∷◌, ◌++◌, none, some, arith, ltb, ◌==◌, length,
  drop, length-append, append_assoc,
}
use creeper_url_shortening_w.Handlers.{version_of}
use creeper_url_shortening_w.Handlers.Files.{
  FileSystem, StaticRequestHandler, content_types, substr, find_last_of, generate_file_path,
  file_extension, type_of_extension, get_file_content_type, contents, serve_file, is_served,
  respond_with, handle_request,
}

drop_front : (xs ys : Bytes) → drop (length xs) (xs ++ ys) ≡ ys
drop_front [] ys = refl
drop_front (x ∷ xs) ys = drop_front xs ys

substr_front : (xs ys : Bytes) → substr (xs ++ ys) (length xs) ≡ some ys
unfolding substr
substr_front xs ys =
    let enough : ltb (length (xs ++ ys)) (length xs) ≡ false =
      ground (arith, length-append xs ys) in
    rw (enough, drop_front xs ys) refl

find_last_of-append :
    (p ext : Bytes) (c : ℕ)
    → find_last_of ext c ≡ none
    → find_last_of (p ++ c ∷ ext) c ≡ some (length p)
unfolding find_last_of
find_last_of-append [] ext c e = let same : c == c ≡ true = ground arith in rw (e, same) refl
find_last_of-append (x ∷ p) ext c e = rw (find_last_of-append p ext c e) refl

module _ (fs : FileSystem) (self : StaticRequestHandler) where
  -- The extension of a path below the root is what stands behind its last dot.
  file_extension-dot :
      (p ext : Bytes)
      → find_last_of ext b'.' ≡ none
      → file_extension fs self (self.root_path ++ (p ++ b'.' ∷ ext)) ≡ some ext
  unfolding file_extension
  file_extension-dot p ext e =
      let whole = append_assoc self.root_path (p ++ b'.' ∷ []) ext in
      let inner = append_assoc p (b'.' ∷ []) ext in
      let size : length p + 1 + length self.root_path
          ≡ length (self.root_path ++ (p ++ b'.' ∷ [])) =
        omega (arith, length-append self.root_path (p ++ b'.' ∷ []), length-append p (b'.' ∷ [])) in
      rw
        (
          file_extension,
          substr_front self.root_path (p ++ b'.' ∷ ext),
          find_last_of-append p ext b'.' e,
          size,
        )
        (rw (sym (whole ∙ ap (λ r. self.root_path ++ r) inner))
          (substr_front (self.root_path ++ (p ++ b'.' ∷ [])) ext))

  generate_file_path-append :
      (rest : Bytes)
      → generate_file_path fs self (self.base_uri ++ rest) ≡ some (self.root_path ++ rest)
  unfolding generate_file_path
  generate_file_path-append rest = rw (generate_file_path, substr_front self.base_uri rest) refl

  -- A request for `base_uri` and then any text with an extension that names a regular file behind the
  -- root path, gets 200, the contents of that file, or nothing where it does not open, and the type of
  -- the extension.
  pub handle_request-file :
      (request : Request) (p ext : Bytes)
      → request.uri ≡ self.base_uri ++ (p ++ b'.' ∷ ext)
      → find_last_of ext b'.' ≡ none
      → fs.exists (self.root_path ++ (p ++ b'.' ∷ ext)) ≡ some true
      → fs.is_regular_file (self.root_path ++ (p ++ b'.' ∷ ext)) ≡ some true
      → handle_request fs self request
        ≡ some (record {
          version = version_of request;
          status_code = 200;
          status_message = codes "OK";
          headers = content_type (type_of_extension fs self (lookup ext content_types));
          body = contents fs self (fs.contents_of (self.root_path ++ (p ++ b'.' ∷ ext)));
        })
  unfolding handle_request respond_with serve_file is_served get_file_content_type
  handle_request-file request p ext uri no_dot exists regular =
      let at = ap (generate_file_path fs self) uri ∙ generate_file_path-append (p ++ b'.' ∷ ext) in
      rw
        (
          handle_request,
          at,
          respond_with,
          is_served,
          exists,
          regular,
          serve_file,
          get_file_content_type,
          file_extension-dot p ext no_dot,
        )
        refl
