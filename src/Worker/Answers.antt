-- ===== src/Worker/Answers.antt =====
-- What the other services read of the tables that services/worker/cmd/worker/main.go changes.
use smart_deploy_linux.Prelude.Duration.{hour}
use smart_deploy_linux.Prelude.Table.{find, count}
use smart_deploy_linux.Prelude.{
  ℕ, ◌≡◌, refl, ◌∙◌, ap, Bool, true, false, none, some, List, Bytes, Bool-cases, inl, inr, ◌==◌,
  if◌then◌else◌,
}
use smart_deploy_linux.Schema.{State, AuthCode, Token, Attempt, Job, Db, select_token}
use smart_deploy_linux.Schema
use smart_deploy_linux.Jobs.{find_job}
use smart_deploy_linux.Tokens.{verify_token, boot_row}
use smart_deploy_linux.Broker.{record_per_ip_attempt, is_redeemable, is_recent_from}
use smart_deploy_linux.Schema.{record_attempt}
use smart_deploy_linux.Worker.{notified}

-- At a time, the second database answers as the first: how many attempts of an address lie within an
-- hour, which code a redemption uses up, what the checks of a job's tokens and the boot script say.
abbrev pub AnswersAs : ℕ → Db → Db → Type 0
AnswersAs time db db' =
    ((fails : Schema.Faults) (ip : ℕ)
      → (record_per_ip_attempt fails time db' ip hour).1
        ≡ (record_per_ip_attempt fails time db ip hour).1)
    × ((hash : Bytes)
        → find (is_redeemable time hash) db'.codes ≡ find (is_redeemable time hash) db.codes)
    × ((states : List State) (fails : Schema.Faults) (hash : Bytes) (id : ℕ)
        → verify_token states fails time db' hash id ≡ verify_token states fails time db hash id)
    × ((hash : Bytes) → boot_row time db' hash ≡ boot_row time db hash)

pub AnswersAs-trans :
    (time : ℕ) (db db' db'' : Db)
    → AnswersAs time db db'
    → AnswersAs time db' db''
    → AnswersAs time db db''
AnswersAs-trans time db db' db'' h k = (
  (λ fails ip. k.0 fails ip ∙ h.0 fails ip),
  (λ hash. k.1 hash ∙ h.1 hash),
  (λ states fails hash id. k.2 states fails hash id ∙ h.2 states fails hash id),
  λ hash. k.3 hash ∙ h.3 hash,
)

pub AnswersAs-refl : (time : ℕ) (db : Db) → AnswersAs time db db
AnswersAs-refl time db =
    ((λ fails ip. refl), (λ hash. refl), (λ states fails hash id. refl), λ hash. refl)

-- A statement that fails leaves the tables as they are.
pub AnswersAs-if :
    (time : ℕ) (db db' : Db) (fails : Bool)
    → AnswersAs time db db'
    → AnswersAs time db (if fails then db else db')
AnswersAs-if time db db' true h = AnswersAs-refl time db
AnswersAs-if time db db' false h = h

-- The number of the attempts is all that the rate limit reads.
pub same_count :
    (faults : Schema.Faults) (time ip : ℕ) (db db' : Db)
    → count (is_recent_from time hour ip) db'.attempts
      ≡ count (is_recent_from time hour ip) db.attempts
    → (record_per_ip_attempt faults time db' ip hour).1
      ≡ (record_per_ip_attempt faults time db ip hour).1
unfolding record_per_ip_attempt
same_count faults time ip db db' h = elim (Bool-cases (faults record_attempt)) [
  | inl broke ↦ rw broke refl
  | inr works ↦ rw works (ap Schema.ok h)
]

-- A notification changes nothing of a job that a check of a token reads.
pub same_job :
    (states : List State) (faults : Schema.Faults) (now time id : ℕ) (hash : Bytes) (db : Db)
    (jobs : List Job) (j : Job) (took : Bool)
    → find_job db id ≡ some j
    → find (λ i. i.id == id) jobs ≡ some (if took then notified now j else j)
    → verify_token states faults time (record db { jobs = jobs }) hash id
      ≡ verify_token states faults time db hash id
unfolding verify_token
same_job states faults now time id hash db jobs j true found found' = rw (found, found') refl
same_job states faults now time id hash db jobs j false found found' = rw (found, found') refl

pub same_none :
    (states : List State) (faults : Schema.Faults) (time id : ℕ) (hash : Bytes) (db : Db)
    (jobs : List Job)
    → find_job db id ≡ none
    → find (λ i. i.id == id) jobs ≡ none
    → verify_token states faults time (record db { jobs = jobs }) hash id
      ≡ verify_token states faults time db hash id
unfolding verify_token
same_none states faults time id hash db jobs lost lost' = rw (lost, lost') refl
