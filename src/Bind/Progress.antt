-- ===== src/Bind/Progress.antt =====
-- Every round of `bindSQL` reads on: the loop ends by its own test, never by its fuel.
use milvus_sql_proxy.Base.{
  ℕ, zero, suc, ◌-◌, ◌≤◌, ◌≢◌, Bool, List, [], ◌∷◌, ◌++◌, Option, none, some, Bytes, length, arith,
  err, get_elem?, Result-cases, inl, inr,
}
use milvus_sql_proxy.Error.{out_of_fuel}
use milvus_sql_proxy.Value.{Value, Library}
use milvus_sql_proxy.Bind.{
  Dialect, Token, next_token, write_token, argument_literal, bind_loop, bind_sql,
}
use milvus_sql_proxy.Bind.SqlLiteral.{sql_literal}
use milvus_sql_proxy.Bind.Rounds.{next_token-Advances}

write_token-ne-out_of_fuel :
    (lib : Library) (args : List Value) (describe : Bool) (t : Token)
    → write_token lib args describe t ≢ err out_of_fuel
unfolding write_token
write_token-ne-out_of_fuel lib args describe t =
    ground (arith, literal (get_elem? args (t.index - 1)))
  where
    literal : (o : Option Value) → argument_literal lib t.index o ≢ err out_of_fuel
    literal none = λ e. cc
    literal (some v) = unfold sql_literal in ground arith

bind_loop-ne-out_of_fuel :
    (lib : Library) (d : Dialect) (args : List Value) (describe : Bool) (fuel count : ℕ)
    (out q : Bytes)
    → length q ≤ fuel
    → bind_loop lib d args describe fuel count out q ≢ err out_of_fuel
unfolding bind_loop
bind_loop-ne-out_of_fuel lib d args describe fuel count out [] h = λ e. cc
bind_loop-ne-out_of_fuel lib d args describe zero count out (c ∷ s) h = absurd (omega arith)
bind_loop-ne-out_of_fuel lib d args describe (suc fuel) count out (c ∷ s) h =
    elim (Result-cases (next_token d count c s)) [
      | inl (e, read) ↦
          rw read λ same. (rw read at (next_token-Advances d count c s)) (ground arith)
      | inr (t, read) ↦ elim (Result-cases (write_token lib args describe t)) [
        | inl (e, wrote) ↦
            rw (read, wrote)
              λ same. write_token-ne-out_of_fuel lib args describe t (rw wrote (ground arith))
        | inr (text, wrote) ↦
            let moved = rw read at (next_token-Advances d count c s) in
            rw (read, wrote)
              (bind_loop-ne-out_of_fuel lib d args describe fuel t.count (out ++ text) t.rest
                (omega arith))
      ]
    ]

-- `bindSQL` ends on every input: the bound on its rounds is never met.
pub bind_sql-ne-out_of_fuel :
    (lib : Library) (q : Bytes) (d : Dialect) (args : List Value) (describe : Bool)
    → bind_sql lib q d args describe ≢ err out_of_fuel
unfolding bind_sql
bind_sql-ne-out_of_fuel lib q d args describe =
    elim (Result-cases (bind_loop lib d args describe (length q) 0 [] q)) [
      | inl (e, failed) ↦ rw failed λ same.
          bind_loop-ne-out_of_fuel lib d args describe (length q) 0 [] q (omega arith)
            (rw failed (ground arith))
      | inr ((out, count), done) ↦ rw done (ground arith)
    ]
