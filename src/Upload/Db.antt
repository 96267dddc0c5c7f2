-- ===== src/Upload/Db.antt =====
-- The PostgreSQL database behind backend/upload-service/internal/repository/repository.go: the four
-- tables, with the constraints of backend/upload-service/migrations, and transactions. A connection
-- says which statements fail; one that fails, or returns an error, rolls the transaction back. A
-- failing COMMIT is taken to have changed nothing. The column widths are not modelled.
pub mod Laws
use anti_fraud_detector.Prelude.{
  ℕ, suc, ◌+◌, String, Bool, true, false, ◌&&◌, not, Option, none, some, List, [], ◌∷◌, ◌++◌, ◌==◌,
  map, if◌then◌else◌, eqb, any, find, count,
}
use anti_fraud_detector.Upload.Domain.{
  Uuid, Time, Dataset, UploadedFile, AnalysisJob, AuditEvent, is_terminal,
}

pub data DbError : Type 0 where
  driver no_rows constraint correlation retry_not_allowed dataset_archived archive_active : DbError

pub record Db : Type 0 where
  pub datasets : List Dataset
  pub files : List UploadedFile
  pub jobs : List AnalysisJob
  pub audits : List AuditEvent

pub data Reply {ℓ} (A : Type ℓ) : Type ℓ where
  ok : A → ℕ → Db → Reply A
  err : DbError → Reply A

-- Which of the statements of a transaction fail, by their number.
abbrev pub Conn : Type 0
Conn = ℕ → Bool

abbrev pub Tx : Type 0 → Type 0
Tx A = Conn → ℕ → Db → Reply A

infixl 5 ◌>>=◌ ◌>>◌
abbrev pub ◌>>=◌ : {A B : Type 0} → Tx A → (A → Tx B) → Tx B
◌>>=◌ m k conn n db = elim (m conn n db) [ ok a n' db' ↦ k a conn n' db' | err e ↦ err e ]

abbrev pub ◌>>◌ : {B : Type 0} → Tx (Unit {0}) → Tx B → Tx B
m >> k = m >>= λ _. k

abbrev pub return : {A : Type 0} → A → Tx A
return a conn n db = ok a n db

abbrev pub raise : {A : Type 0} → DbError → Tx A
raise e conn n db = err e

-- One statement that changes the tables, and one that reads a row.
abbrev pub exec : (Db → Option Db) → Tx (Unit {0})
exec statement conn n db =
    if conn n
    then err driver
    else elim (statement db) [ none ↦ err constraint | some db' ↦ ok tt (suc n) db' ]

abbrev pub query_row : {A : Type 0} → (Db → Option A) → Tx A
query_row select conn n db =
    if conn n
    then err driver
    else elim (select db) [ none ↦ err no_rows | some a ↦ ok a (suc n) db ]

pub data Result {ℓ} (A : Type ℓ) : Type ℓ where
  done : A → Result A
  fail : DbError → Result A

-- BeginTx is statement 0, and COMMIT the one after the last.
unfoldable pub in_tx : {A : Type 0} → Tx A → Conn → Db → Result A × Db
in_tx body conn db = if conn 0 then (fail driver, db) else elim (body conn 1 db) [
  | err e ↦ (fail e, db)
  | ok a n db' ↦ if conn n then (fail driver, db) else (done a, db')
]

-- A statement outside a transaction.
unfoldable pub auto_commit : {A : Type 0} → Tx A → Conn → Db → Result A × Db
auto_commit body conn db = elim (body conn 0 db) [
  | err e ↦ (fail e, db)
  | ok a n db' ↦ (done a, db')
]

-- Lookups by primary key, and the rows that an UPDATE touches.
abbrev pub find_job : Uuid → List AnalysisJob → Option AnalysisJob
find_job k = find (λ j. eqb j.id k)

abbrev pub find_dataset : Uuid → List Dataset → Option Dataset
find_dataset k = find (λ d. eqb d.id k)

unfoldable pub update_jobs :
    Uuid → (AnalysisJob → AnalysisJob) → List AnalysisJob → List AnalysisJob
update_jobs k f [] = []
update_jobs k f (j ∷ js) =
    let rest = update_jobs k f js in if eqb j.id k then f j ∷ rest else j ∷ rest

unfoldable pub update_datasets : Uuid → (Dataset → Dataset) → List Dataset → List Dataset
update_datasets k f [] = []
update_datasets k f (d ∷ ds) =
    let rest = update_datasets k f ds in if eqb d.id k then f d ∷ rest else d ∷ rest

-- How many jobs of a dataset are neither completed nor failed.
abbrev pub is_active_of : Uuid → AnalysisJob → Bool
is_active_of k j = eqb j.dataset_id k && not (is_terminal j.status)

unfoldable pub count_active : Uuid → List AnalysisJob → ℕ
count_active k jobs = count (is_active_of k) jobs

-- `retry_of_job_id = k`.
abbrev pub retries : Uuid → AnalysisJob → Bool
retries k j = elim j.retry_of_job_id [ none ↦ false | some r ↦ eqb r k ]

-- The statements, with the primary keys, foreign keys and unique index that they must meet.
unfoldable pub insert_dataset : Dataset → Db → Option Db
insert_dataset d db =
    if any (λ e. eqb e.id d.id) db.datasets
    then none
    else some (record db { datasets = d ∷ db.datasets })

unfoldable pub insert_file : UploadedFile → Db → Option Db
insert_file f db =
    if any (λ d. eqb d.id f.dataset_id) db.datasets && not (any (λ g. eqb g.id f.id) db.files)
    then some (record db { files = f ∷ db.files })
    else none

retry_allowed : Option Uuid → List AnalysisJob → Bool
retry_allowed none jobs = true
retry_allowed (some source) jobs =
    any (λ j. eqb j.id source) jobs && not (any (retries source) jobs)

unfoldable pub insert_job : AnalysisJob → Db → Option Db
unfolding retry_allowed
insert_job j db =
    if any (λ d. eqb d.id j.dataset_id) db.datasets
      && not (any (λ i. eqb i.id j.id) db.jobs)
      && retry_allowed j.retry_of_job_id db.jobs
    then some (record db { jobs = j ∷ db.jobs })
    else none

abbrev pub update_job : Uuid → (AnalysisJob → AnalysisJob) → Db → Option Db
update_job k f db = some (record db { jobs = update_jobs k f db.jobs })

-- UPDATE datasets SET status=$1 WHERE id=$2.
abbrev pub set_dataset_status : Uuid → String → Db → Option Db
set_dataset_status k status db =
    some
      (record db { datasets = update_datasets k (λ d. record d { status = status }) db.datasets })

audit_refers : AuditEvent → Db → Bool
audit_refers a db =
    any (λ d. eqb d.id a.dataset_id) db.datasets
    && (elim a.job_id [ none ↦ true | some k ↦ any (λ j. eqb j.id k) db.jobs ])

unfoldable pub insert_audit_row : AuditEvent → Db → Option Db
unfolding audit_refers
insert_audit_row a db =
    if audit_refers a db then some (record db { audits = a ∷ db.audits }) else none
