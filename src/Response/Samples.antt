-- ===== src/Response/Samples.antt =====
-- An answer behind a status, and the theorem at work on it.
use gin_t.Common.{ℕ, ◌≡◌, refl, inr, false, Option, none, some, [], ◌∷◌, ◌++◌, arith}
use gin_t.Text.{Bytes, codes}
use gin_t.Outcome.{ok}
use gin_t.Response.{Writer, WriteError, Platform, Serializer, json_render, Response, render_with}
use gin_t.Response.Written.{write_and_finish, write_and_finish-status}
use gin_t.Response.Sent.{json_body, IsSent, render_with-IsSent}

-- Values are bytes, and errors are numbers.
abbrev platform : Platform Bytes ℕ
platform = record {
  nil_value = [];
  sprintf = λ format values. format;
  redirect = λ url code w. ok w;
  serve_file = λ path w. ok w;
  serve_content = λ name w. ok w;
}

abbrev quoted : Serializer Bytes ℕ
quoted v = ((codes "\"" ++ (v ++ codes "\"")) ∷ [], none)

abbrev created : Response
created = record {
  status = 201;
  written = false;
  writer = record { headers = []; informed = []; sent = none; body = [] };
}

informal : gin_t.Response.is_informal 201 ≡ false
unfolding gin_t.Response.is_informal
informal = refl

render_with-IsSent_example :
    (r' : Response) × (e : Option (WriteError ℕ)) × (render_with platform
        (json_render (some quoted))
        (codes "a")
        created
      ≡ ok (r', e))
    × IsSent created (codes "application/json;charset=utf-8") (codes "\"a\"") r' e
render_with-IsSent_example =
    render_with-IsSent platform (codes "a") (json_render (some quoted))
      (codes "application/json;charset=utf-8") (codes "\"a\"") created
      (json_body quoted (codes "\"a\"") refl) refl (inr (omega arith, omega arith, informal))

write_and_finish-status_example :
    write_and_finish {E = ℕ} (codes "a") created
    ≡ ok (
      record created { writer = record created.writer { sent = some (200, []); body = codes "a" } },
      none,
    )
write_and_finish-status_example = write_and_finish-status {E = ℕ} (codes "a") created refl
