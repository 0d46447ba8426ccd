-- ===== src/Response.antt =====
-- core/render.go, and Context.Render with the functions of core/context.go that call it. The writer is
-- that of net/http: WriteHeader sends the headers that are set by then, once, and Write sends status
-- 200 if no status has been sent. That net/http sniffs a type which is missing is left out.
pub mod Sent
pub mod Keys
pub mod Written
mod Samples
use gin_t.Common.{
  ℕ, ◌==◌, Bool, true, false, not, ◌&&◌, ◌||◌, Option, none, some, List, [], ◌∷◌, ◌++◌, leb,
  list_eq, if◌then◌else◌,
}
use gin_t.Text.{Bytes, codes}
use gin_t.Outcome.{Outcome, ok, panic, invalid_status, nil_dereference, ◌>>=◌, ◌>>◌, panic_if}
use gin_t.Context.{body_allowed}

abbrev pub Headers : Type 0
Headers = List (Bytes × Bytes)

pub record Writer : Type 0 where
  pub headers : Headers
  pub informed : List ℕ  -- the statuses 1xx
  pub sent : Option (ℕ × Headers)
  pub body : Bytes

-- Header().Del and Header().Set, for a key in its canonical form (Response/Keys)
unfoldable pub del_header : Bytes → Headers → Headers
del_header key [] = []
del_header key ((k, v) ∷ headers) =
    if list_eq k key then del_header key headers else (k, v) ∷ del_header key headers

abbrev pub set_header : Bytes → Bytes → Headers → Headers
set_header key val headers = (key, val) ∷ del_header key headers

-- A status 1xx but 101 does not end the headers.
unfoldable pub is_informal : ℕ → Bool
is_informal code = leb 100 code && leb code 199 && not (code == 101)

unfoldable pub write_header : ℕ → Writer → Outcome Writer
write_header code w = elim w.sent [
  | some before ↦ ok w
  | none ↦ do
    panic_if (not (leb 100 code && leb code 999)) invalid_status
    ok (
        if is_informal code
        then record w { informed = w.informed ++ code ∷ [] }
        else record w { sent = some (code, w.headers) })
]

-- An error of the program, or that of Write for a status without a body.
pub data WriteError (E : Type 0) : Type 0 where
  body_not_allowed : WriteError E
  not_encoded : E → WriteError E

abbrev sent_status : Option (ℕ × Headers) → ℕ
sent_status none = 200
sent_status (some (code, headers)) = code

-- the implicit WriteHeader of a first Write
unfoldable pub begin : Writer → Outcome Writer
unfolding write_header
begin w = elim w.sent [ some before ↦ ok w | none ↦ write_header 200 w ]

abbrev without_error {ℓ} : {E : Type ℓ} → Outcome Writer → Outcome (Writer × Option E)
without_error run = do w ← run; ok (w, none)

module _ {E : Type 0} where
  unfoldable pub write_body : Bytes → Writer → Writer × Option (WriteError E)
  unfolding body_allowed
  write_body bytes w =
      if body_allowed (sent_status w.sent)
      then (record w { body = w.body ++ bytes }, none)
      else (w, some body_not_allowed)

  unfoldable pub write : Bytes → Writer → Outcome (Writer × Option (WriteError E))
  unfolding begin write_body
  write bytes w = do begun ← begin w; ok (write_body bytes begun)

  abbrev pub go_on :
      (Writer → Outcome (Writer × Option (WriteError E)))
      → Writer × Option (WriteError E)
      → Outcome (Writer × Option (WriteError E))
  go_on next (w, none) = next w
  go_on next (w, some f) = ok (w, some f)

  -- the calls of Write in an encoder, up to an error
  unfoldable pub write_all :
      List Bytes → Option E → Writer → Outcome (Writer × Option (WriteError E))
  unfolding write
  write_all [] none w = ok (w, none)
  write_all [] (some e) w = ok (w, some (not_encoded e))
  write_all (bytes ∷ more) e w = do result ← write bytes w; go_on (write_all more e) result

-- What core/render.go calls: a serializer's Encode, by what it writes and the error; fmt.Sprintf;
-- and http.Redirect, http.ServeFile and http.ServeContent.
pub record Platform (V E : Type 0) : Type 0 where
  pub nil_value : V
  pub sprintf : Bytes → List V → Bytes
  pub redirect : Bytes → ℕ → Writer → Outcome Writer
  pub serve_file : Bytes → Writer → Outcome Writer
  pub serve_content : Bytes → Writer → Outcome Writer

abbrev pub Serializer : Type 0 → Type 0 → Type 0
Serializer V E = V → List Bytes × Option E

-- The renders; a serializer is `none` if it is nil.
pub data Render (V E : Type 0) : Type 0 where
  json_render xml_render : Option (Serializer V E) → Render V E
  string_render : Bytes → List V → Render V E
  redirect_render : Bytes → ℕ → Render V E
  file_attachment_render : Bytes → Bytes → Render V E
  content_render : Bytes → Render V E

unfoldable pub write_content_type : Bytes → Writer → Writer
unfolding del_header
write_content_type content_type w = record w {
  headers =
      set_header (codes "Content-Type") content_type (del_header (codes "Content-Type") w.headers);
}

module _ {V E : Type 0} where
  unfoldable pub encode_to :
      Option (Serializer V E) → V → Writer → Outcome (Writer × Option (WriteError E))
  unfolding write_all
  encode_to none v w = panic nil_dereference
  encode_to (some encode) v w = let (writes, e) = encode v in write_all writes e w

  unfoldable pub json_to :
      Option (Serializer V E) → V → Writer → Outcome (Writer × Option (WriteError E))
  unfolding encode_to write_content_type
  json_to s v w = encode_to s v (write_content_type (codes "application/json;charset=utf-8") w)

  unfoldable pub xml_to :
      Option (Serializer V E) → V → Writer → Outcome (Writer × Option (WriteError E))
  unfolding encode_to write_content_type
  xml_to s v w = encode_to s v (write_content_type (codes "text/xml;charset=utf-8") w)

  -- Fprintf writes the whole text at once.
  unfoldable pub string_to :
      (Bytes → List V → Bytes) → Bytes → List V → Writer → Outcome (Writer × Option (WriteError E))
  unfolding write write_content_type
  string_to sprintf format [] w =
      write format (write_content_type (codes "text/html;charset=utf-8") w)
  string_to sprintf format (d ∷ ds) w =
      write (sprintf format (d ∷ ds)) (write_content_type (codes "text/html;charset=utf-8") w)

  module _ (p : Platform V E) where
    redirect_to : Bytes → ℕ → Writer → Outcome (Writer × Option (WriteError E))
    redirect_to url code w = without_error (p.redirect url (if code == 0 then 302 else code) w)

    file_attachment_to : Bytes → Bytes → Writer → Outcome (Writer × Option (WriteError E))
    file_attachment_to file_name file_path w = without_error (
        p.serve_file file_path (record w {
          headers =
              set_header (codes "Content-Disposition")
                (codes "attachment; filename=\"" ++ (file_name ++ codes "\"")) w.headers;
        }))

    content_to : Bytes → Writer → Outcome (Writer × Option (WriteError E))
    content_to name w = without_error (p.serve_content name w)

    -- Render of each of them
    unfoldable pub render_to : Render V E → V → Writer → Outcome (Writer × Option (WriteError E))
    unfolding json_to xml_to string_to redirect_to file_attachment_to content_to
    render_to (json_render s) v w = json_to s v w
    render_to (xml_render s) v w = xml_to s v w
    render_to (string_render format ds) v w = string_to p.sprintf format ds w
    render_to (redirect_render url code) v w = redirect_to url code w
    render_to (file_attachment_render name path) v w = file_attachment_to name path w
    render_to (content_render name) v w = content_to name w

-- The fields of a context that an answer changes.
pub record Response : Type 0 where
  pub status : ℕ
  pub written : Bool
  pub writer : Writer

-- "if c.status != 0"
unfoldable pub send_status : Response → Outcome Response
unfolding write_header
send_status r =
    if r.status == 0
    then ok r
    else (do w ← write_header r.status r.writer; ok (record r { status = 0; writer = w }))

module _ {V E : Type 0} (p : Platform V E) where
  -- Context.Render
  unfoldable pub render_with :
      Render V E → V → Response → Outcome (Response × Option (WriteError E))
  render_with render v r = do
    begun ← send_status r
    if not (body_allowed begun.status) then ok (begun, none) else (do
      (w, e) ← render_to p render v begun.writer
      ok (record begun { written = true; writer = w }, e))

  -- JSON, XML, String, Redirect, ServeFile and ServeContent
  abbrev respond_json :
      Option (Serializer V E) → V → Response → Outcome (Response × Option (WriteError E))
  respond_json s v r = render_with (json_render s) v r

  abbrev respond_xml :
      Option (Serializer V E) → V → Response → Outcome (Response × Option (WriteError E))
  respond_xml s v r = render_with (xml_render s) v r

  abbrev respond_string : Bytes → List V → Response → Outcome (Response × Option (WriteError E))
  respond_string format ds r = render_with (string_render format ds) p.nil_value r

  abbrev redirect : ℕ → Bytes → Response → Outcome (Response × Option (WriteError E))
  redirect code url r = render_with (redirect_render url code) p.nil_value r

  abbrev serve_file : Bytes → Bytes → Response → Outcome (Response × Option (WriteError E))
  serve_file path name r = render_with (file_attachment_render name path) p.nil_value r

  abbrev serve_content : Bytes → Response → Outcome (Response × Option (WriteError E))
  serve_content name r = render_with (content_render name) p.nil_value r

  -- AbortWithJSON, AbortWithXML and AbortWithString: the error is dropped, and the second result is
  -- the index of the handler, which Abort keeps.
  abbrev abort_with_json : ℕ → Option (Serializer V E) → V → Response → Outcome (Response × ℕ)
  abort_with_json i s v r = do (r', e) ← respond_json s v r; ok (r', i)

  abbrev abort_with_xml : ℕ → Option (Serializer V E) → V → Response → Outcome (Response × ℕ)
  abort_with_xml i s v r = do (r', e) ← respond_xml s v r; ok (r', i)

  abbrev abort_with_string : ℕ → Bytes → List V → Response → Outcome (Response × ℕ)
  abort_with_string i text ds r = do (r', e) ← respond_string text ds r; ok (r', i)
