-- ===== src/Redis/Reference.antt =====
-- A server that behaves as the interface of Redis asks: a function from keys to what they hold.
use dip.Prelude.{ℕ, List, refl, if◌then◌else◌}
use dip.Redis.{Redis, Key, Entry, missing, key_eq, execute, answer}

abbrev pub reference : Redis
reference = record {
  Server = (Key → Entry) × List ℕ;
  entry = λ k s. s.0 k;
  command = λ k c s. ((λ k'. if key_eq k k' then execute c (s.0 k) else s.0 k'), s.1);
  reply = λ k c s. answer c (s.0 k);
  scan = λ s. s.1;
  entry-command = λ k k' c s. refl;
  reply-answer = λ k c s. refl;
}

-- Nothing is stored; a scan will show the given jobs.
abbrev pub empty_server : List ℕ → reference.Server
empty_server jobs = ((λ k. missing), jobs)
