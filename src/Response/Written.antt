-- ===== src/Response/Written.antt =====
-- Context.Write, SetHeader and the deferred finish of core/context.go on the writer.
use gin_t.Common.{
  ℕ, ◌≡◌, refl, Bool-cases, inl, inr, not, ◌&&◌, Option, none, some, ◌++◌, ◌==◌, if◌then◌else◌,
}
use gin_t.Text.{Bytes}
use gin_t.Outcome.{Outcome, ok, ◌>>=◌}
use gin_t.Response.{Writer, set_header, write_header, WriteError, write, Response}
use gin_t.Response.Keys.{canonical_key}
use gin_t.Response.Sent.{write_first}

-- SetHeader, whose key is made canonical by Header().Set
unfoldable set_response_header : Bytes → Bytes → Response → Response
set_response_header key val r = record r {
  writer = record r.writer { headers = set_header (canonical_key key) val r.writer.headers };
}

-- Write, which does not look at the status of the context
unfoldable pub write_data :
    {E : Type 0} → Bytes → Response → Outcome (Response × Option (WriteError E))
unfolding write
write_data bytes r = do (w, e) ← write bytes r.writer; ok (record r { writer = w }, e)

-- finish
unfoldable pub finish_response : Response → Outcome Response
unfolding write_header
finish_response r =
    if not (r.status == 0) && not r.written
    then (do w ← write_header r.status r.writer; ok (record r { writer = w }))
    else ok r

-- Write and then finish, as for a handler that only writes.
unfoldable pub write_and_finish :
    {E : Type 0} → Bytes → Response → Outcome (Response × Option (WriteError E))
write_and_finish bytes r = do
  (begun, e) ← write_data bytes r
  done ← finish_response begun
  ok (done, e)

sent_already :
    (r : Response) (code : ℕ) (w : Writer)
    → w.sent ≡ some (code, w.headers)
    → finish_response (record r { writer = w }) ≡ ok (record r { writer = w })
unfolding finish_response write_header
sent_already r code w e = elim (Bool-cases (not (r.status == 0) && not r.written)) [
  | inl b ↦ rw (b, e) refl
  | inr b ↦ rw b refl
]

-- A response that is written by Write alone is sent with status 200, whatever status the context has;
-- the status of the context is not sent by finish either.
pub write_and_finish-status :
    {E : Type 0} (bytes : Bytes) (r : Response)
    → r.writer.sent ≡ none
    → write_and_finish {E = E} bytes r
      ≡ ok (
        record r {
          writer = record r.writer {
            sent = some (200, r.writer.headers);
            body = r.writer.body ++ bytes;
          };
        },
        none,
      )
unfolding write_and_finish write_data
write_and_finish-status {E} bytes r fresh =
    rw
      (
        write_first {E = E} bytes r.writer fresh,
        sent_already r 200
            (record r.writer { sent = some (200, r.writer.headers); body = r.writer.body ++ bytes })
            refl,
      )
      refl
