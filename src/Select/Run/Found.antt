-- ===== src/Select/Run/Found.antt =====
-- The cells of the rows of a search: scores, columns and identifiers.
use milvus_sql_proxy.Base.{
  ℕ, Bool, true, false, ◌≡◌, refl, sym, ap, ◌∙◌, subst, List, [], ◌∷◌, ◌++◌, Bytes, equal,
  equal_iff, get_elem?, Option, none, some, is_some, if◌then◌else◌, ok, ok-injective, Bool-cases,
  inl, inr,
}
use milvus_sql_proxy.Value.{Value, float32}
use milvus_sql_proxy.Select.Run.Columns.{distance_name}
use milvus_sql_proxy.Select.Run.Rows.{
  ColumnReader, SearchResult, read_column, score, ids_for, search_cell, with_ids, search_rows,
}
use milvus_sql_proxy.Select.Run.Cells.{AreRows, rows_with-AreRows}

module _ {C : Type 0} (reader : ColumnReader C) where
  -- `GetColumn` returns the first column of the name: one that is appended is found if there is
  -- none before it.
  pub record IsFirst : Type 0 where
    pub before :
        (cs : List C) (c d : C) (n : Bytes)
        → reader.get_column cs n ≡ some d
        → reader.get_column (cs ++ c ∷ []) n ≡ some d
    pub last :
        (cs : List C) (c d : C) (n : Bytes)
        → reader.get_column cs n ≡ none
        → reader.get_column (cs ++ c ∷ []) n ≡ some d
        → d ≡ c

  -- What stands for a name in row `i` of a search: the score, the value of the column of that name,
  -- or if there is none, the identifier.
  pub data IsSearchCell (r : SearchResult C) (i : ℕ) (n : Bytes) (v : Value) : Type 0 where
    score_value :
        {x : ℕ}
        → n ≡ distance_name
        → get_elem? r.scores i ≡ some x
        → v ≡ float32 x
        → IsSearchCell r i n v
    column_value :
        {c : C}
        → equal n distance_name ≡ false
        → reader.get_column r.fields n ≡ some c
        → reader.column_get c i ≡ ok v
        → IsSearchCell r i n v
    id_value :
        {c : C}
        → equal n distance_name ≡ false
        → reader.get_column r.fields n ≡ none
        → r.ids ≡ some c
        → reader.column_get c i ≡ ok v
        → IsSearchCell r i n v

  -- What is found among the columns of a result and its identifiers.
  with_ids-found :
      (first : IsFirst) (pk n : Bytes) (cs : List C) (ids : Option C) (d : C)
      → reader.get_column cs n ≡ some d
      → reader.get_column (with_ids reader pk cs ids) n ≡ some d
  with_ids-found first pk n cs none d h = h
  with_ids-found first pk n cs (some c) d h =
      elim (Bool-cases (is_some (reader.get_column cs pk))) [
        | inl e ↦ rw e h
        | inr e ↦ rw e (first.before cs c d n h)
      ]

  with_ids-missing :
      (first : IsFirst) (pk n : Bytes) (cs : List C) (ids : Option C) (d : C)
      → reader.get_column cs n ≡ none
      → reader.get_column (with_ids reader pk cs ids) n ≡ some d
      → ids ≡ some d
  with_ids-missing first pk n cs none d none_there h = cc
  with_ids-missing first pk n cs (some c) d none_there h =
      added (is_some (reader.get_column cs pk)) h
    where
      added :
          (there : Bool)
          → reader.get_column (if there then cs else cs ++ c ∷ []) n ≡ some d
          → some c ≡ some d
      added true h = cc
      added false h = ap some (sym (first.last cs c d n none_there h))

  ids_for-some :
      (pk n : Bytes) (ids : Option C) (d : C) → ids_for reader pk n ids ≡ some d → ids ≡ some d
  ids_for-some pk n ids d h = elim (Bool-cases (equal n pk)) [
    | inl e ↦ rw e at h
    | inr e ↦ absurd (no_ids (rw e at h))
  ]
    where
      no_ids : ◌≡◌ {A = Option C} none (some d) → ⊥
      no_ids h = cc

  -- The cell, from what is found.
  read-IsSearchCell :
      (first : IsFirst) (pk : Bytes) (r : SearchResult C) (i : ℕ) (n : Bytes) (v : Value)
      (own all by_key : Option C)
      → equal n distance_name ≡ false
      → reader.get_column r.fields n ≡ own
      → reader.get_column (with_ids reader pk r.fields r.ids) n ≡ all
      → ids_for reader pk n r.ids ≡ by_key
      → read_column reader n i all by_key ≡ ok v
      → IsSearchCell r i n v
  read-IsSearchCell first pk r i n v (some c) all by_key other own_is all_is key_is h =
      column_value other own_is (
        subst (λ o. read_column reader n i o by_key ≡ ok v)
          (sym all_is ∙ with_ids-found first pk n r.fields r.ids c own_is) h)
  read-IsSearchCell first pk r i n v none (some d) by_key other own_is all_is key_is h =
      id_value other own_is (with_ids-missing first pk n r.fields r.ids d own_is all_is) h
  read-IsSearchCell first pk r i n v none none (some d) other own_is all_is key_is h =
      id_value other own_is (ids_for-some pk n r.ids d key_is) h
  read-IsSearchCell first pk r i n v none none none other own_is all_is key_is h = cc

  score-IsSearchCell :
      (r : SearchResult C) (i : ℕ) (n : Bytes) (v : Value) (found : Option ℕ)
      → n ≡ distance_name
      → get_elem? r.scores i ≡ found
      → score reader found ≡ ok v
      → IsSearchCell r i n v
  score-IsSearchCell r i n v none named e h = cc
  score-IsSearchCell r i n v (some x) named e h = score_value named e (sym (ok-injective h))

  search_cell-IsSearchCell :
      (first : IsFirst) (pk : Bytes) (r : SearchResult C) (i : ℕ) (n : Bytes) (v : Value)
      → search_cell reader pk r (with_ids reader pk r.fields r.ids) i n ≡ ok v
      → IsSearchCell r i n v
  unfolding search_cell
  search_cell-IsSearchCell first pk r i n v h = elim (Bool-cases (equal n distance_name)) [
    | inl e ↦ score-IsSearchCell r i n v _ ((equal_iff n distance_name).0 e) refl (rw e at h)
    | inr e ↦ read-IsSearchCell first pk r i n v _ _ _ e refl refl refl (rw e at h)
  ]

  -- The rows of a search are as many as it counts results, and in each of them stands, for each
  -- name in order, the score if the name is `_distance`, otherwise the value of the column of that
  -- name, and if there is none, of the column of the identifiers; where `GetColumn` finds the first
  -- column of a name.
  pub search_rows-AreRows :
      (first : IsFirst) (pk : Bytes) (r : SearchResult C) (names : List Bytes)
      (rows : List (List Value))
      → search_rows reader pk r names ≡ ok rows
      → AreRows (IsSearchCell r) names 0 r.result_count rows
  unfolding search_rows
  search_rows-AreRows first pk r names rows h =
      rows_with-AreRows (IsSearchCell r)
        (search_cell reader pk r (with_ids reader pk r.fields r.ids))
        (search_cell-IsSearchCell first pk r) names 0 r.result_count h
