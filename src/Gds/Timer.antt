-- ===== src/Gds/Timer.antt =====
-- The timer for the result of a signing request (opcua/client/qopcuagdsclient.cpp): its interval,
-- and how often the result is asked for.
use qtopcua.Prelude.{
  int_max, ℕ, zero, suc, ◌+◌, ◌*◌, ◌^◌, ◌≡◌, ◌≤◌, ◌<◌, refl, ap, ◌∙◌, ◌⊎◌, true, false, List, [],
  ◌∷◌, Option, none, some, ◌==◌, find, Bool-cases, inl, inr, leb, ltb, arith,
}
use native.Mathlib.Nat.{pow-le-pow_right, mul-le-mul_left}
use qtopcua.Qt.Text.{QString, size}
use qtopcua.Gds.State.{
  Action, call_method, node_id, Gds, Answers, Ran, Op, stop, put, ◌⨾◌, directory, FinishTimer,
  finish_request_name,
}
use qtopcua.Gds.Registration.{MethodResult, is_offline}
use qtopcua.Gds.Certificates.{
  bad_nothing_to_do, slots_of, start_signing_request_finished, finish_certificate_request, retry,
  finish_request_finished,
}
use qtopcua.Gds.Calls.{seq-some, seq-none, seq-none_later, guarded, call-known}
use qtopcua.Gds.Events.{times, stopped, finish_timeout_slots}

abbrev pub timer : ℕ → ℕ → FinishTimer
timer interval slots = record { interval = interval; slots = slots; is_active = true }

-- The code runs through and leaves a timer.
abbrev pub LeavesTimer : FinishTimer → Option Ran → Type 0
LeavesTimer t o = (r : Ran) × (o ≡ some r) × (r.gds.m_certificate_finish_timer ≡ some t)

two_powers : (n k : ℕ) → n * 2 * 2 ^ k ≡ n * 2 ^ suc k
two_powers n k = let e : 2 ^ suc k ≡ 2 * 2 ^ k = omega arith in rw e (grind arith)

at_most : (n k : ℕ) → n * 2 ^ k ≤ int_max → n ≤ int_max
at_most n k small =
    let positive : 1 ≤ 2 ^ k =
      pow-le-pow_right (omega arith) (let low : 0 ≤ k = omega arith in low) in
    let more : n * 1 ≤ n * 2 ^ k = mul-le-mul_left n positive in omega arith

module _ (answers : Answers) (result : MethodResult) where
  abbrev pending : Op
  pending = finish_request_finished answers result bad_nothing_to_do

  module _ (interval slots : ℕ) (g : Gds)
      (e : g.m_certificate_finish_timer ≡ some (timer interval slots)) where
    retry-once :
        interval * 2 ≤ int_max
        → pending g
          ≡ some (record {
            gds = record g { m_certificate_finish_timer = some (timer (interval * 2) slots) };
            actions = [];
          })
    unfolding finish_request_finished put
    retry-once small =
        let int : ltb int_max (interval * 2) ≡ false = ground (arith, small) in
        rw (e, retry) (rw int refl)

    retry-overflow : int_max < interval * 2 → pending g ≡ none
    unfolding finish_request_finished
    retry-overflow large =
        let no_int : ltb int_max (interval * 2) ≡ true = ground (arith, large) in
        rw (e, retry) (rw no_int refl)

  retries :
      (k interval slots : ℕ) (g : Gds)
      → g.m_certificate_finish_timer ≡ some (timer interval slots)
      → interval * 2 ^ k ≤ int_max
      → LeavesTimer (timer (interval * 2 ^ k) slots) (times k pending g)
  unfolding times stop
  retries zero interval slots g e small = (
    _,
    refl,
    e ∙ ap (λ n. some (timer n slots)) (let one : interval ≡ interval * 1 = omega arith in one),
  )
  retries (suc k) interval slots g e small =
      let after : Gds = record g {
        m_certificate_finish_timer = some (timer (interval * 2) slots);
      } in
      let less : interval * 2 * 2 ^ k ≤ int_max = rw (two_powers interval k) small in
      let rest = retries k (interval * 2) slots after refl less in
      (
        _,
        seq-some pending _ g _ rest.0
            (retry-once interval slots g e (at_most (interval * 2) k less)) rest.1,
        rest.2 ∙ ap (λ n. some (timer n slots)) (two_powers interval k),
      )

  retries-overflow :
      (k interval slots : ℕ) (g : Gds)
      → g.m_certificate_finish_timer ≡ some (timer interval slots)
      → interval ≤ int_max
      → int_max < interval * 2 ^ k
      → times k pending g ≡ none
  unfolding times
  retries-overflow zero interval slots g e small large = ground (arith, small, large)
  retries-overflow (suc k) interval slots g e small large =
      elim (Bool-cases (ltb int_max (interval * 2))) [
        | inl no_int ↦
            seq-none pending _ g (retry-overflow interval slots g e (ground (arith, no_int)))
        | inr int ↦
            let less : interval * 2 ≤ int_max = ground (arith, int) in
            let more : int_max < interval * 2 * 2 ^ k = rw (two_powers interval k) large in
            seq-none_later pending _ g _ (retry-once interval slots g e less)
              (retries-overflow k (interval * 2) slots _ refl less more)
      ]

-- From any state, after a signing request is accepted and its result k times reported as not there
-- yet, up to k = 20, the interval of the timer is 2000 * 2^k, with one slot more than before the
-- request; from k = 21 on, the doubling has overflowed an int, which is undefined.
pub retries-interval :
    (answers : Answers) (result pending : MethodResult) (k : ℕ) (g : Gds)
    → let outcome =
        (start_signing_request_finished result 0
            ⨾ times k (finish_request_finished answers pending bad_nothing_to_do))
          g in
      let slots = slots_of g.m_certificate_finish_timer + 1 in
      ((k ≤ 20) × LeavesTimer (timer (2000 * 2 ^ k) slots) outcome) ⊎ ((20 < k) × (outcome ≡ none))
unfolding start_signing_request_finished put
retries-interval answers result pending k g =
    let slots : ℕ = slots_of g.m_certificate_finish_timer + 1 in
    let started : Gds = record g {
      m_certificate_request_id = result.string;
      m_certificate_finish_timer = some (timer 2000 slots);
    } in
    let request = start_signing_request_finished result 0 in
    elim (Bool-cases (leb k 20)) [
      | inl few ↦
          let le : k ≤ 20 = ground (arith, few) in
          let power : 2 ^ k ≤ 2 ^ 20 = pow-le-pow_right (omega arith) le in
          let done = retries answers pending k 2000 slots started refl (omega arith) in
          inl (
            le,
            (
              _,
              seq-some request _ g (record { gds = started; actions = [] }) done.0 refl done.1,
              done.2,
            ),
          )
      | inr many ↦
          let lt : 21 ≤ k = ground (arith, many) in
          let power : 2 ^ 21 ≤ 2 ^ k = pow-le-pow_right (omega arith) lt in
          let over =
            retries-overflow answers pending k 2000 slots started refl (omega arith)
              (omega arith) in
          inr (lt, seq-none_later request _ g (record { gds = started; actions = [] }) refl over)
    ]

-- The state after several signing requests: the timer has a slot for each.
abbrev requested : QString → ℕ → Gds → Gds
requested id slots g = record g {
  m_certificate_request_id = id;
  m_certificate_finish_timer = some (timer 2000 slots);
}

requests :
    (result : MethodResult) (k n : ℕ) (g : Gds)
    → slots_of g.m_certificate_finish_timer ≡ n
    → times (suc k) (start_signing_request_finished result 0) g
      ≡ some (record { gds = requested result.string (n + suc k) g; actions = [] })
unfolding times stop start_signing_request_finished put
requests result zero n g e =
    seq-some (start_signing_request_finished result 0) stop g
      (record {
        gds = requested result.string (slots_of g.m_certificate_finish_timer + 1) g;
        actions = [];
      })
      _ refl refl
    ∙ rw e refl
requests result (suc k) n g e =
    let first : Gds = requested result.string (slots_of g.m_certificate_finish_timer + 1) g in
    seq-some (start_signing_request_finished result 0) _ g (record { gds = first; actions = [] })
      (record { gds = requested result.string (n + suc (suc k)) g; actions = [] }) refl
      (requests result k (n + 1) first (ap (λ m. m + 1) e)
        ∙ ap (λ m. some (record { gds = requested result.string m g; actions = [] })) (omega arith))

-- As many copies of an action.
abbrev pub copies : ℕ → Action → List Action
copies zero action = []
copies (suc n) action = action ∷ copies n action

module _ (answers : Answers) (accepts : answers.accepts ≡ true)
    (online : answers.is_connected ≡ true) where
  -- The state in which a result can be asked for.
  abbrev CanAsk : Gds → QString → Type 0
  CanAsk g id =
      (g.m_client ≡ true)
      × (g.m_directory_node ≡ directory)
      × (find finish_request_name g.m_directory_nodes ≡ some id)
      × ((size g.m_certificate_request_id == 0) ≡ false)

  abbrev ask : Gds → QString → Action
  ask g id =
      call_method id
        (node_id g.m_app_record.application_id ∷ node_id g.m_certificate_request_id ∷ [])

  finish-once :
      (g : Gds) (id : QString)
      → CanAsk g id
      → finish_certificate_request answers g ≡ some (record { gds = g; actions = ask g id ∷ [] })
  unfolding finish_certificate_request
  finish-once g id can =
      guarded (is_offline answers g) (size g.m_certificate_request_id == 0) _ _ _
        (ground (arith, can.0, online)) can.3
      ∙ call-known finish_request_name g id can.2 answers accepts _ _ can.1

  finish-times :
      (n : ℕ) (g : Gds) (id : QString)
      → CanAsk g id
      → times n (finish_certificate_request answers) g
        ≡ some (record { gds = g; actions = copies n (ask g id) })
  unfolding times stop
  finish-times zero g id can = refl
  finish-times (suc n) g id can =
      seq-some (finish_certificate_request answers) _ g _ _ (finish-once g id can)
        (finish-times n g id can)

-- From a state without a timer, in a client that is connected and has the directory node with its
-- method for the result, and whose calls are accepted, the timeout after k + 1 signing requests
-- were accepted, with a request id that is not empty, calls the method k + 1 times with the same
-- last request id.
pub asks-per-request :
    (answers : Answers) (result : MethodResult) (id : QString) (k : ℕ) (g : Gds)
    → answers.accepts ≡ true
    → answers.is_connected ≡ true
    → g.m_client ≡ true
    → g.m_directory_node ≡ directory
    → find finish_request_name g.m_directory_nodes ≡ some id
    → (size result.string == 0) ≡ false
    → g.m_certificate_finish_timer ≡ none
    → let asked =
        call_method id (node_id g.m_app_record.application_id ∷ node_id result.string ∷ []) in
      (q : Ran) × ((times (suc k) (start_signing_request_finished result 0)
            ⨾ finish_timeout_slots answers)
          g
        ≡ some q)
      × (q.actions ≡ copies (suc k) asked)
unfolding finish_timeout_slots put
asks-per-request answers result id k g accepts online client there known full new =
    let slots : slots_of g.m_certificate_finish_timer ≡ 0 = rw new refl in
    let h : Gds = requested result.string (0 + suc k) g in
    let stopped_h : Gds = record h {
      m_certificate_finish_timer = stopped h.m_certificate_finish_timer;
    } in
    let asks =
      finish-times answers accepts online (0 + suc k) stopped_h id (client, there, known, full) in
    let timeout =
      seq-some
        (put (λ t. record t { m_certificate_finish_timer = stopped t.m_certificate_finish_timer }))
        (times (0 + suc k) (finish_certificate_request answers)) h
        (record { gds = stopped_h; actions = [] }) _ refl asks in
    (
      _,
      seq-some (times (suc k) (start_signing_request_finished result 0)) _ g _ _
          (requests result k 0 g slots) timeout,
      ap
          (λ n.
            copies n
              (call_method id (node_id g.m_app_record.application_id ∷ node_id result.string ∷ [])))
          (let e : 0 + suc k ≡ suc k = omega arith in e),
    )
