-- ===== src/Auth/Machine.antt =====
-- Answered logins, refreshes and logouts, in any order and with time between them
-- (src/auth/auth.service.ts), against an abstract machine of sessions.
use idp_be.Prelude.{
  ℕ, ◌+◌, ◌*◌, String, ◌≡◌, sym, subst, none, some, List, [], ◌∷◌, arith, refl, ◌∙◌,
}
use idp_be.Exec.{ok}
use idp_be.Platform.{Platform, World, later}
use idp_be.Platform.Laws.{RedisLaws}
use idp_be.Redis.Answers.{RedisAnswers}
use idp_be.Auth.Service.{LoginResult, refresh_token_expire_time, login, logout, refresh}
use idp_be.Auth.Refines.{
  Sessions, holder, put, Implements, Reaches, SignsIn, IsFound, logout_refines, login_refines,
  refresh_refines,
}

-- What the machine knows of users: whose credentials a pair is, for whom a user's answers are
-- signed, and how.
pub record Accounts : Type 1 where
  pub signs_in : (email password uuid : String) → Type 0
  pub signs_for : (uuid signed : String) → Type 0
  pub access : (signed : String) → (now : ℕ) → String

-- A call with what it was given and what it answered, or time that passes.
pub data Call : Type 0 where
  logs_in : (email password : String) → LoginResult → Call
  refreshes : (token : String) → LoginResult → Call
  logs_out : (token : String) → Call
  waits : ℕ → Call

-- The abstract machine: a clock and sessions that last `ttl`. By a login it opens the session of
-- the user whose credentials it is given; by a refresh it moves a live session to the token of the
-- answer, for the same user, and forgets the old token; by a logout it forgets a token. The access
-- token of an answer is that of the user.
pub data MachineStep (a : Accounts) (ttl : ℕ) : Call → ℕ × Sessions → ℕ × Sessions → Type 1 where
  opens :
      (email password uuid : String) (res : LoginResult) (now : ℕ) (s : Sessions)
      → a.signs_in email password uuid
      → res.access_token ≡ a.access uuid now
      → MachineStep a ttl
          (logs_in email password res)
          (now, s)
          (now, put res.refresh_token (some (uuid, now + ttl)) s)
  moves :
      (token uuid signed : String) (res : LoginResult) (now : ℕ) (s : Sessions)
      → holder (s token) now ≡ some uuid
      → a.signs_for uuid signed
      → res.access_token ≡ a.access signed now
      → MachineStep a ttl
          (refreshes token res)
          (now, s)
          (now, put res.refresh_token (some (uuid, now + ttl)) (put token none s))
  ends :
      (token : String) (now : ℕ) (s : Sessions)
      → MachineStep a ttl (logs_out token) (now, s) (now, put token none s)
  rests : (ms now : ℕ) (s : Sessions) → MachineStep a ttl (waits ms) (now, s) (now + ms, s)

-- A run of the machine by calls, the last of them first.
pub data MachineRun (a : Accounts) (ttl : ℕ) (start : ℕ × Sessions)
    : List Call → ℕ × Sessions → Type 1 where
  starts : MachineRun a ttl start [] start
  runs_on :
      {calls : List Call} {call : Call} {m m' : ℕ × Sessions}
      → MachineRun a ttl start calls m
      → MachineStep a ttl call m m'
      → MachineRun a ttl start (call ∷ calls) m'

module _ {Db Cache Response : Type 0} (P : Platform Db Cache Response) where
  -- Calls of the auth service on sessions that are answered, the last of them first.
  pub data Answered (start : World Db Cache) : List Call → World Db Cache → Type 0 where
    unused : Answered start [] start
    then_login :
        {calls : List Call} {w w' : World Db Cache} (email password : String) (res : LoginResult)
        → Answered start calls w
        → login P email password w ≡ (ok res, w')
        → Answered start (logs_in email password res ∷ calls) w'
    then_refresh :
        {calls : List Call} {w w' : World Db Cache} (token : String) (res : LoginResult)
        → Answered start calls w
        → refresh P token w ≡ (ok res, w')
        → Answered start (refreshes token res ∷ calls) w'
    then_logout :
        {calls : List Call} {w w' : World Db Cache} (token : String)
        → Answered start calls w
        → logout P token w ≡ (ok tt, w')
        → Answered start (logs_out token ∷ calls) w'
    then_later :
        {calls : List Call} {w : World Db Cache} (ms : ℕ)
        → Answered start calls w
        → Answered start (waits ms ∷ calls) (later ms w)

  abbrev pub ttl : ℕ
  ttl = refresh_token_expire_time P * 1000

  -- The users of a database.
  abbrev pub accounts : Db → Accounts
  accounts db = record {
    signs_in = SignsIn P db;
    signs_for = IsFound P db;
    access = P.jwt.sign_subject;
  }

  -- Calls have led from one state to another, and the machine has gone along.
  pub record Follows (calls : List Call) (w : World Db Cache) (s : Sessions) (w' : World Db Cache)
      : Type 1 where
    pub sessions : Sessions
    pub run : MachineRun (accounts w.db) ttl (w.now, s) calls (w'.now, sessions)
    pub same_db : w'.db ≡ w.db
    pub implements : Implements P w' sessions

  Follows-step :
      {calls : List Call} {w v : World Db Cache} {s : Sessions} (before : Follows calls w s v)
      (call : Call) (w' : World Db Cache) (s' : Sessions)
      → MachineStep (accounts w.db) ttl call (v.now, before.sessions) (v.now, s')
      → Reaches P v w' s'
      → Follows (call ∷ calls) w s w'
  Follows-step {calls = calls} {w = w} {s = s} before call w' s' step reached = record {
    sessions = s';
    run =
        subst (λ n. MachineRun (accounts w.db) ttl (w.now, s) (call ∷ calls) (n, s'))
          (sym reached.same_time) (runs_on before.run step);
    same_db = reached.same_db ∙ before.same_db;
    implements = reached.implements;
  }

  module _ (L : RedisLaws P.redis) (A : RedisAnswers P.redis) where
    -- Where Redis answers, any sequence of answered logins, refreshes and logouts, with time between
    -- them, is a run of the abstract machine by the same calls with the same answers, from the
    -- sessions that the server had and over its users: a login opens a session for the user whose
    -- password it had, a refresh moves a live session, of a user who has a row, and ends the old
    -- token, and a logout ends one. At its end the clocks agree, and every token stands for whom the
    -- machine says, at that time and later.
    pub sessions_refine :
        (w : World Db Cache) (s : Sessions) (calls : List Call) (w' : World Db Cache)
        → Implements P w s
        → Answered w calls w'
        → Follows calls w s w'
    sessions_refine w s _ _ implements unused = record {
      sessions = s;
      run = starts;
      same_db = refl;
      implements = implements;
    }
    sessions_refine w s _ w' implements (then_login {w = v} email password res answered h) =
        let before = sessions_refine w s _ v implements answered in
        let (uuid, signs, access, reached) =
          login_refines P L email password v w' res before.sessions h before.implements in
        Follows-step before _ w' _
          (opens email password uuid res v.now before.sessions
            (subst (λ d. SignsIn P d email password uuid) before.same_db signs) access)
          reached
    sessions_refine w s _ w' implements (then_refresh {w = v} token res answered h) =
        let before = sessions_refine w s _ v implements answered in
        let (uuid, signed, live, found, access, reached) =
          refresh_refines P L token v w' res before.sessions A h before.implements in
        Follows-step before _ w' _
          (moves token uuid signed res v.now before.sessions live
            (subst (λ d. IsFound P d uuid signed) before.same_db found) access)
          reached
    sessions_refine w s _ w' implements (then_logout {w = v} token answered h) =
        let before = sessions_refine w s _ v implements answered in
        Follows-step before _ w' _ (ends token v.now before.sessions)
          (logout_refines P L token v w' before.sessions h before.implements)
    sessions_refine w s _ _ implements (then_later {w = v} ms answered) =
        let before = sessions_refine w s _ v implements answered in
        record {
          sessions = before.sessions;
          run = runs_on before.run (rests ms v.now before.sessions);
          same_db = before.same_db;
          implements = record {
            holds = λ token t late. before.implements.holds token t (omega (arith, late));
          };
        }
