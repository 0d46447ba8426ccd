-- ===== src/Response/Sent.antt =====
-- What reaches the client behind Context.Render.
use gin_t.Common.{
  ℕ, ◌==◌, ◌≤◌, ◌≡◌, refl, ◌∙◌, ◌⊎◌, inl, inr, Bool-cases, true, false, ◌||◌, Option, none, some,
  List, [], ◌∷◌, ◌++◌, leb, if◌then◌else◌, arith,
}
use gin_t.Text.{Bytes, codes}
use gin_t.Outcome.{Outcome, ok, panic, out_of_fuel, ◌>>=◌}
use gin_t.Context.{body_allowed}
use gin_t.Response.{
  Headers, Writer, set_header, del_header, is_informal, write_header, WriteError, body_not_allowed,
  go_on, write, begin, write_body, json_to, xml_to, string_to, encode_to, write_all, Platform,
  Serializer, Render, json_render, xml_render, string_render, write_content_type, render_to,
  Response, send_status, render_with,
}

-- A render that writes one body of a type.
pub data IsBody {V E : Type 0} (p : Platform V E) (v : V)
    : Render V E → Bytes → Bytes → Type 0 where
  json_body :
      (s : Serializer V E) (bytes : Bytes)
      → s v ≡ (bytes ∷ [], none)
      → IsBody p v (json_render (some s)) (codes "application/json;charset=utf-8") bytes
  xml_body :
      (s : Serializer V E) (bytes : Bytes)
      → s v ≡ (bytes ∷ [], none)
      → IsBody p v (xml_render (some s)) (codes "text/xml;charset=utf-8") bytes
  plain_body :
      (format : Bytes)
      → IsBody p v (string_render format []) (codes "text/html;charset=utf-8") format
  formatted_body :
      (format : Bytes) (d : V) (ds : List V)
      → IsBody p v
          (string_render format (d ∷ ds))
          (codes "text/html;charset=utf-8")
          (p.sprintf format (d ∷ ds))

-- No status, or one that ends the headers.
abbrev IsFinal : ℕ → Type 0
IsFinal code = (code ≡ 0) ⊎ ((100 ≤ code) × (code ≤ 999) × (is_informal code ≡ false))

-- The response behind a render.
pub record IsSent {E : Type 0} (r : Response) (content_type bytes : Bytes) (r' : Response)
    (e : Option (WriteError E)) : Type 0 where
  pub no_status : r'.status ≡ 0
  pub marked : r'.written ≡ true
  pub head :
      r'.writer.sent
      ≡ some (
          if r.status == 0
          then (
            200,
            set_header
                (codes "Content-Type")
                content_type
                (del_header (codes "Content-Type") r.writer.headers),
          )
          else (r.status, r.writer.headers))
  pub body :
      r'.writer.body
      ≡ (if r.status == 0 || body_allowed r.status then r.writer.body ++ bytes else r.writer.body)
  pub failed : e ≡ (if r.status == 0 || body_allowed r.status then none else some body_not_allowed)

pub write_first :
    {E : Type 0} (bytes : Bytes) (w : Writer)
    → w.sent ≡ none
    → write {E = E} bytes w
      ≡ ok (record w { sent = some (200, w.headers); body = w.body ++ bytes }, none)
unfolding write begin write_header write_body body_allowed is_informal
write_first bytes w e = rw e refl

write_behind :
    {E : Type 0} (bytes : Bytes) (w : Writer) (code : ℕ) (headers : Headers)
    → write {E = E} bytes (record w { sent = some (code, headers) })
      ≡ ok (
          if body_allowed code
          then (record w { sent = some (code, headers); body = w.body ++ bytes }, none)
          else (record w { sent = some (code, headers) }, some body_not_allowed))
unfolding write begin write_body
write_behind bytes w code headers = refl

one_write :
    {E : Type 0} (x : Outcome (Writer × Option (WriteError E)))
    → (x >>= go_on (λ w. ok (w, none))) ≡ x
one_write (ok (w, none)) = refl
one_write (ok (w, some f)) = refl
one_write (panic e) = refl
one_write out_of_fuel = refl

render_to-IsBody :
    {V E : Type 0} (p : Platform V E) (v : V) (render : Render V E) (content_type bytes : Bytes)
    (w : Writer)
    → IsBody p v render content_type bytes
    → render_to p render v w ≡ write bytes (write_content_type content_type w)
unfolding render_to json_to xml_to string_to encode_to write_all
render_to-IsBody p v render t bytes w (json_body s _ e) = rw e (one_write _)
render_to-IsBody p v render t bytes w (xml_body s _ e) = rw e (one_write _)
render_to-IsBody p v render t bytes w (plain_body format) = refl
render_to-IsBody p v render t bytes w (formatted_body format d ds) = refl

begun_run :
    {V E : Type 0} (p : Platform V E) (v : V) (render : Render V E) (r begun : Response)
    (w : Writer) (e : Option (WriteError E))
    → send_status r ≡ ok begun
    → body_allowed begun.status ≡ true
    → render_to p render v begun.writer ≡ ok (w, e)
    → render_with p render v r ≡ ok (record begun { written = true; writer = w }, e)
unfolding render_with
begun_run p v render r begun w e sent allowed run = rw (sent, allowed, run) refl

no_status_sent : (r : Response) → r.status ≡ 0 → send_status r ≡ ok r
unfolding send_status
no_status_sent r e = rw e refl

status_sent :
    (r : Response)
    → (r.status == 0) ≡ false
    → r.writer.sent ≡ none
    → 100 ≤ r.status
    → r.status ≤ 999
    → is_informal r.status ≡ false
    → send_status r
      ≡ ok (record r {
        status = 0;
        writer = record r.writer { sent = some (r.status, r.writer.headers) };
      })
unfolding send_status write_header
status_sent r b fresh low high ends =
    let least : leb 100 r.status ≡ true = ground arith in
    let most : leb r.status 999 ≡ true = ground arith in rw (b, fresh, least, most, ends) refl

-- For a response of which nothing has been sent, with no status or one that ends the headers, Render
-- of a body returns. Without a status, 200 is sent with the type of the body; with one, the status is
-- sent with the headers that were set before, so that the type of the body is lost. The body is
-- appended if the status allows one, and is refused otherwise. The status is 0 then.
pub render_with-IsSent :
    {V E : Type 0} (p : Platform V E) (v : V) (render : Render V E) (content_type bytes : Bytes)
    (r : Response)
    → IsBody p v render content_type bytes
    → r.writer.sent ≡ none
    → IsFinal r.status
    → (r' : Response) × (e : Option (WriteError E)) × (render_with p render v r ≡ ok (r', e))
      × IsSent r content_type bytes r' e
unfolding write_content_type body_allowed
render_with-IsSent p v render t bytes r body fresh (inl e) = (
  _,
  none,
  begun_run p v render r r _ none (no_status_sent r e) (rw e refl) (
      render_to-IsBody p v render t bytes r.writer body
      ∙ write_first bytes (write_content_type t r.writer) fresh),
  record { no_status = e; marked = refl; head = rw e refl; body = rw e refl; failed = rw e refl },
)
render_with-IsSent p v render t bytes r body fresh (inr (low, high, ends)) =
    let begun : Response = record r {
      status = 0;
      writer = record r.writer { sent = some (r.status, r.writer.headers) };
    } in
    let b : (r.status == 0) ≡ false = ground arith in
    let run =
      render_to-IsBody p v render t bytes begun.writer body
      ∙ write_behind bytes (write_content_type t r.writer) r.status r.writer.headers in
    elim (Bool-cases (body_allowed r.status)) [
      | inl a ↦ (
        _,
        none,
        begun_run p v render r begun
            (record r.writer {
              headers = (write_content_type t r.writer).headers;
              sent = some (r.status, r.writer.headers);
              body = r.writer.body ++ bytes;
            })
            none (status_sent r b fresh low high ends) refl (rw a at run),
        record {
          no_status = refl;
          marked = refl;
          head = rw b refl;
          body = rw (b, a) refl;
          failed = rw (b, a) refl;
        },
      )
      | inr a ↦ (
        _,
        some body_not_allowed,
        begun_run p v render r begun
            (record r.writer {
              headers = (write_content_type t r.writer).headers;
              sent = some (r.status, r.writer.headers);
            })
            (some body_not_allowed) (status_sent r b fresh low high ends) refl (rw a at run),
        record {
          no_status = refl;
          marked = refl;
          head = rw b refl;
          body = rw (b, a) refl;
          failed = rw (b, a) refl;
        },
      )
    ]
