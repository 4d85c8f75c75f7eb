-- ===== src/Sentinel/Approval/Create/Reuse.antt =====
-- What `createOrReuse` of packages/sentinel/src/approval/ApprovalStore.ts does with a used idempotency key.
use mcp_suite.Common.{String, ◌≡◌, ◌≢◌, refl, false, some, List, [], ◌∷◌, arith, eq_iff}
use mcp_suite.Effect.{ok, err, ◌>>=◌}
use mcp_suite.Table.{find, KeysUnique}
use mcp_suite.Sentinel.Approval.Model.{
  invalid_request, transition, CreateApprovalRequest, NormalizedRequest, RequestRow, Store, Env,
}
use mcp_suite.Sentinel.Approval.Input.{now, hash_capability, normalize_create_input}
use mcp_suite.Sentinel.Approval.Sql.{
  transaction, find_request, find_by_key, select_by_idempotency_key, to_request,
}
use mcp_suite.Sentinel.Approval.Sql.Equations.{expire_row_if_due_lem, lapsed, lapsed_row}
use mcp_suite.Sentinel.Approval.Create.{
  reuse_row, create_or_reuse_body, create_or_reuse, scoped_key, fingerprint_of,
}

module _ (env : Env) where
  -- A second request under a used idempotency key, where the primary key holds.
  find_by_key-find :
      (rows : List RequestRow) (key : String) (row : RequestRow)
      → KeysUnique (λ r. r.id) rows
      → find_by_key key rows ≡ some row
      → find_request row.id rows ≡ some row
  unfolding find_by_key find
  find_by_key-find [] key row u h = absurd (ground arith)
  find_by_key-find (x ∷ rows) key row u h =
      ground (arith, eq_iff x.id row.id, find_by_key-find rows key row u.1)

  reuse_row_same :
      (s : Store) (row : RequestRow) (fingerprint : String)
      → row.request_fingerprint ≡ some fingerprint
      → find_request row.id s.requests ≡ some row
      → reuse_row env row fingerprint s ≡ (
        ok (record {
          request = to_request env (lapsed_row (env.clock s.clock_reads) row);
          capability_issued = false;
        }),
        lapsed env row (env.clock s.clock_reads) (now env s).1,
      )
  unfolding reuse_row now ◌>>=◌
  reuse_row_same s row fingerprint same found = ground (
    arith,
    eq_iff fingerprint fingerprint,
    expire_row_if_due_lem env (now env s).1 row.id row (env.clock s.clock_reads) found,
  )

  reuse_row_conflict :
      (s : Store) (row : RequestRow) (f fingerprint : String)
      → row.request_fingerprint ≡ some f
      → f ≢ fingerprint
      → reuse_row env row fingerprint s ≡ (err (transition invalid_request), s)
  unfolding reuse_row
  reuse_row_conflict s row f fingerprint other differ = ground (arith, eq_iff f fingerprint)

  -- The key was used for the same request: the stored request comes back, expired if it is due, and
  -- nothing is stored or issued.
  pub create_or_reuse_same :
      (s t : Store) (input : CreateApprovalRequest) (raw hash key : String) (n : NormalizedRequest)
      (row : RequestRow)
      → hash_capability env raw ≡ ok hash
      → normalize_create_input env input s ≡ (ok n, t)
      → scoped_key env n ≡ some key
      → KeysUnique (λ r. r.id) t.requests
      → find_by_key key t.requests ≡ some row
      → row.request_fingerprint ≡ some (fingerprint_of env n)
      → create_or_reuse env input raw s ≡ (
        ok (record {
          request = to_request env (lapsed_row (env.clock t.clock_reads) row);
          capability_issued = false;
        }),
        lapsed env row (env.clock t.clock_reads) (now env t).1,
      )
  unfolding create_or_reuse create_or_reuse_body select_by_idempotency_key reuse_row transaction now
      ◌>>=◌
  create_or_reuse_same s t input raw hash key n row e valid keyed u known same =
      rw (valid, e, keyed, create_or_reuse_body, known)
        (rw
          (reuse_row_same t row (fingerprint_of env n) same
            (find_by_key-find t.requests key row u known))
          refl)

  -- The key was used for another request: the call throws, and the database stays as it was.
  pub create_or_reuse_conflict :
      (s t : Store) (input : CreateApprovalRequest) (raw hash key f : String)
      (n : NormalizedRequest) (row : RequestRow)
      → hash_capability env raw ≡ ok hash
      → normalize_create_input env input s ≡ (ok n, t)
      → scoped_key env n ≡ some key
      → find_by_key key t.requests ≡ some row
      → row.request_fingerprint ≡ some f
      → f ≢ fingerprint_of env n
      → create_or_reuse env input raw s ≡ (err (transition invalid_request), t)
  unfolding create_or_reuse create_or_reuse_body select_by_idempotency_key reuse_row transaction
      ◌>>=◌
  create_or_reuse_conflict s t input raw hash key f n row e valid keyed known other differ =
      rw (valid, e, keyed, create_or_reuse_body, known)
        (rw (reuse_row_conflict t row f (fingerprint_of env n) other differ) refl)
