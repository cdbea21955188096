-- ===== src/Queries/Connector.antt =====
-- CDBConnector of Server/CDBConnector.cpp: its calls of ODBC and what it makes of their codes. The
-- driver is an argument: what it answers to the newest call, with all the calls before it.
use lh_server.Prelude.{
  ℕ, zero, suc, ◌+◌, ◌-◌, Bool, true, false, List, [], ◌∷◌, ◌++◌, Option, none, some, ◌==◌, ◌&&◌,
  ◌||◌, if◌then◌else◌, ℤ, pos, negsuc, eqb_ℤ, length, take, replicate,
}

pub data Handle : Type 0 where
  env_handle dbc_handle stmt_handle : Handle

-- SQLAllocHandle, SQLSetEnvAttr, SQLConnect, SQLExecDirect, SQLPrepare, SQLExecute and SQLGetDiagRec
-- with the number of the record.
pub data Call : Type 0 where
  alloc : Handle → Call
  set_version connect execute : Call
  exec_direct prepare : List ℕ → Call
  get_diag_rec : Handle → ℕ → Call

abbrev pub Driver : Type 0
Driver = Call → List Call → ℤ

-- `retcode` and `rec`, and the calls so far, newest first.
pub record Connector : Type 0 where
  pub retcode : ℤ
  pub rec : ℕ
  pub calls : List Call

-- SQL_SUCCESS 0, SQL_SUCCESS_WITH_INFO 1, SQL_INVALID_HANDLE -2.
abbrev pub is_success : ℤ → Bool
is_success code = eqb_ℤ code (pos 0) || eqb_ℤ code (pos 1)

-- retcode = SQL...(...)
unfoldable pub call : Driver → Call → Connector → Connector
call driver c d = record d { retcode = driver c d.calls; calls = c ∷ d.calls }

-- SQLGetDiagRec(handle, ++rec): its code is not kept.
unfoldable pub diagnose : Handle → Connector → Connector
diagnose handle d = record d { rec = d.rec + 1; calls = get_diag_rec handle (d.rec + 1) ∷ d.calls }

-- `AllocateHandle`. Where the environment is missing, the record is asked for without the `++`.
unfoldable pub allocate_handle : Driver → Connector → Connector
allocate_handle driver d =
    let with_env : Connector = call driver (alloc env_handle) d in
    let versioned : Connector = call driver set_version with_env in
    let with_dbc : Connector = call driver (alloc dbc_handle) versioned in
    if is_success with_env.retcode
    then (if is_success versioned.retcode
        then (if is_success with_dbc.retcode then with_dbc else diagnose dbc_handle with_dbc)
        else diagnose env_handle versioned)
    else record with_env { calls = get_diag_rec env_handle with_env.rec ∷ with_env.calls }

unfoldable pub connect_data_source : Driver → Connector → Connector
connect_data_source driver d = call driver connect d

-- The loop of `HandleDiagnosticRecord` behind the record `i`, on fuel: it goes on while there are records.
unfoldable pub diagnostic_records : ℕ → Driver → Handle → ℕ → Connector → Connector
diagnostic_records zero driver handle i d = d
diagnostic_records (suc fuel) driver handle i d =
    let asked : Connector = record d { calls = get_diag_rec handle (i + 1) ∷ d.calls } in
    let rest : Connector = diagnostic_records fuel driver handle (i + 1) asked in
    if eqb_ℤ (driver (get_diag_rec handle (i + 1)) d.calls) (pos 0) then rest else asked

unfoldable pub handle_diagnostic_record : ℕ → Driver → Handle → Connector → Connector
handle_diagnostic_record fuel driver handle d =
    if eqb_ℤ d.retcode (negsuc 1) then d else diagnostic_records fuel driver handle 0 d

-- `ExcuteStatementDirect`: SQL_EXUTE_OK is 1, SQL_EXUTE_FAIL 0. `retcode` is set to SQL_SUCCESS before
-- it is tested.
unfoldable pub excute_statement_direct : ℕ → Driver → List ℕ → Connector → Connector × ℕ
excute_statement_direct fuel driver sql d =
    let fresh : Connector = record d { retcode = pos 0 } in
    let ready : Connector =
      if is_success fresh.retcode
      then call driver (alloc stmt_handle) fresh
      else diagnose dbc_handle fresh in
    let done : Connector = call driver (exec_direct sql) ready in
    if eqb_ℤ done.retcode (pos 0)
    then (done, 1)
    else (diagnose stmt_handle (handle_diagnostic_record fuel driver stmt_handle done), 0)

-- `PrepareStatement`, which goes by the code of the call before it, and `ExcuteStatement`.
unfoldable pub prepare_statement : Driver → List ℕ → Connector → Connector
prepare_statement driver sql d =
    let ready : Connector =
      if is_success d.retcode then call driver (alloc stmt_handle) d else diagnose dbc_handle d in
    let done : Connector = call driver (prepare sql) ready in
    if eqb_ℤ done.retcode (pos 0) then done else diagnose dbc_handle done

unfoldable pub excute_statement : Driver → Connector → Connector
excute_statement driver d =
    let done : Connector = call driver execute d in
    if eqb_ℤ done.retcode (pos 0) then done else diagnose dbc_handle done

-- A `char[10]` as a string: `none` where no 0 ends it inside the array.
unfoldable pub c_string : List ℕ → Option (List ℕ)
c_string [] = none
c_string (zero ∷ bs) = some []
c_string (suc b ∷ bs) = elim (c_string bs) [ none ↦ none | some s ↦ some (suc b ∷ s) ]

unfoldable pub eq_string : List ℕ → List ℕ → Bool
eq_string [] [] = true
eq_string [] (y ∷ ys) = false
eq_string (x ∷ xs) [] = false
eq_string (x ∷ xs) (y ∷ ys) = (x == y) && eq_string xs ys

-- for (int i = length; i < 10; ++i) array[i] = NULL;
unfoldable pub clear_behind : ℕ → List ℕ → List ℕ
clear_behind n array = take n array ++ replicate (length array - n) 0

-- `RetrieveResult`: `id` and `pass` are what SQLFetch has left in the two arrays, whatever its code was.
unfoldable pub retrieve_result : List ℕ → List ℕ → List ℕ → List ℕ → Option Bool
retrieve_result cid cpass id pass = elim (c_string (clear_behind (length cid) id)) [
  | none ↦ none
  | some account ↦ elim (c_string (clear_behind (length cpass) pass)) [
    | none ↦ none
    | some secret ↦ some (eq_string account cid && eq_string secret cpass)
  ]
]
