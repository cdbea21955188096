-- ===== src/Queries/Accounts.antt =====
-- What CDBConnector reports: when a statement counts as done, and when an account matches.
use lh_server.Prelude.{
  NoZero, ℕ, zero, suc, ◌+◌, ◌-◌, ◌<◌, ◌≡◌, ◌⊎◌, sym, refl, ap, ◌∙◌, true, false, List, [], ◌∷◌,
  ◌++◌, Option, none, some, ◌==◌, ◌&&◌, pos, negsuc, eqb_ℤ, length, take, replicate, Bool-cases,
  inl, inr, arith,
}
use lh_server.Queries.Connector.{
  Handle, stmt_handle, alloc, exec_direct, get_diag_rec, Driver, Connector, call, diagnose,
  diagnostic_records, handle_diagnostic_record, excute_statement_direct, c_string, eq_string,
  clear_behind, retrieve_result,
}

ended : (n : ℕ) → 0 < n → c_string (replicate n 0) ≡ some []
unfolding c_string
ended zero h = absurd (omega arith)
ended (suc n) h = refl

grown :
    (b m k : ℕ) (bs s : List ℕ)
    → m ≡ k
    → c_string (bs ++ replicate m 0) ≡ some s
    → c_string ((suc b ∷ bs) ++ replicate k 0) ≡ some (suc b ∷ s)
unfolding c_string
grown b m k bs s e left = rw (sym e, left) refl

-- The string that is left when the array is cleared behind the length of the one it is compared with.
c_string-matches :
    (cid id : List ℕ)
    → NoZero cid
    → length cid < length id
    → (s : List ℕ) × (c_string (clear_behind (length cid) id) ≡ some s)
      × (eq_string s cid ≡ eq_string (take (length cid) id) cid)
unfolding clear_behind c_string eq_string
c_string-matches [] [] z h = absurd (omega arith)
c_string-matches [] (b ∷ bs) z h = ([], ended _ (omega arith), refl)
c_string-matches (c ∷ cs) [] z h = absurd (omega arith)
c_string-matches (c ∷ cs) (zero ∷ bs) z h = ([], refl, ground (arith, z.0))
c_string-matches (c ∷ cs) (suc b ∷ bs) z h =
    let (s, left, same) = c_string-matches cs bs z.1 (omega (arith, h)) in
    (
      suc b ∷ s,
      grown b (length bs - length cs) (length (suc b ∷ bs) - length (c ∷ cs)) (take (length cs) bs)
          s (omega arith) left,
      ap (λ t. (suc b == c) && t) same,
    )

answer :
    (first second : Option (List ℕ)) (s t cid cpass : List ℕ)
    → first ≡ some s
    → second ≡ some t
    → elim first [
      | none ↦ none
      | some account ↦ elim second [
        | none ↦ none
        | some secret ↦ some (eq_string account cid && eq_string secret cpass)
      ]
    ]
      ≡ some (eq_string s cid && eq_string t cpass)
answer first second s t cid cpass e f = rw (e, f) refl

-- RetrieveResult compares only so many bytes of the row as the client has sent: a prefix of the
-- right name with a prefix of the right password matches. The names that are sent have no 0 byte and
-- leave room in the array.
pub retrieve_result_lem :
    (cid cpass id pass : List ℕ)
    → NoZero cid
    → NoZero cpass
    → length cid < length id
    → length cpass < length pass
    → retrieve_result cid cpass id pass
      ≡ some (eq_string (take (length cid) id) cid && eq_string (take (length cpass) pass) cpass)
unfolding retrieve_result
retrieve_result_lem cid cpass id pass z w h k =
    let (s, left, same) = c_string-matches cid id z h in
    let (t, behind, equal) = c_string-matches cpass pass w k in
    answer _ _ s t _ _ left behind ∙ rw (same, equal) refl

kept_records :
    (fuel : ℕ) (driver : Driver) (handle : Handle) (i : ℕ) (d : Connector)
    → ((diagnostic_records fuel driver handle i d).rec ≡ d.rec)
      × ((diagnostic_records fuel driver handle i d).retcode ≡ d.retcode)
unfolding diagnostic_records
kept_records zero driver handle i d = (refl, refl)
kept_records (suc fuel) driver handle i d =
    elim (Bool-cases (eqb_ℤ (driver (get_diag_rec handle (i + 1)) d.calls) (pos 0))) [
      | inl h ↦ rw h (kept_records fuel driver handle (i + 1) _)
      | inr h ↦ rw h (refl, refl)
    ]

reported :
    (fuel : ℕ) (driver : Driver) (handle : Handle) (d : Connector)
    → ((handle_diagnostic_record fuel driver handle d).rec ≡ d.rec)
      × ((handle_diagnostic_record fuel driver handle d).retcode ≡ d.retcode)
unfolding handle_diagnostic_record
reported fuel driver handle d = elim (Bool-cases (eqb_ℤ d.retcode (negsuc 1))) [
  | inl h ↦ rw h (refl, refl)
  | inr h ↦ rw h (kept_records fuel driver handle 0 d)
]

-- A statement that is executed directly counts as done exactly if the driver answers SQL_SUCCESS to
-- it, and not SQL_SUCCESS_WITH_INFO. Then a handle was allocated and the statement sent, with nothing
-- asked; else the number of the record, which is never set back, has grown by one, however many records the
-- loop of HandleDiagnosticRecord asks for. The code of the allocation is not looked at.
pub excute_statement_direct_lem :
    (fuel : ℕ) (driver : Driver) (sql : List ℕ) (d : Connector)
    → let code = driver (exec_direct sql) (alloc stmt_handle ∷ d.calls) in
      let (after, result) = excute_statement_direct fuel driver sql d in
      ((eqb_ℤ code (pos 0) ≡ true)
        × (result ≡ 1)
        × (after.rec ≡ d.rec)
        × (after.calls ≡ exec_direct sql ∷ alloc stmt_handle ∷ d.calls))
      ⊎ ((eqb_ℤ code (pos 0) ≡ false)
          × (result ≡ 0)
          × (after.rec ≡ d.rec + 1)
          × (after.retcode ≡ code))
unfolding excute_statement_direct call diagnose
excute_statement_direct_lem fuel driver sql d =
    elim (Bool-cases (eqb_ℤ (driver (exec_direct sql) (alloc stmt_handle ∷ d.calls)) (pos 0))) [
      | inl h ↦ rw h (inl (refl, refl, refl, refl))
      | inr h ↦ rw h (
          inr (
            refl,
            refl,
            ap (λ n. n + 1) (reported fuel driver stmt_handle _).0,
            (reported fuel driver stmt_handle _).1,
          ))
    ]
