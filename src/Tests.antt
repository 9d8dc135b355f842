-- ===== src/Tests.antt =====
-- Concrete inputs: keys and rows are numbers, and a row equals itself only.
use view_server_smart.Shared.{
  ℕ, ◌≡◌, ◌≤◌, ◌<◌, refl, ap, ◌∙◌, inl, inr, Bool, true, false, Option, none, some, List, [], ◌∷◌,
  arith, ℕ_discrete, ◌==◌, ==→≡, Distinct, length,
}
use view_server_smart.Shared.Arrays.{Represents, keys_of, rows_of}
use view_server_smart.Protocol.{DeltaOperation, insert, update, move, remove}
use view_server_smart.Protocol.Number.{natural}
use view_server_smart.Client.State.{ClientState, initial_client_state}
use view_server_smart.Engine.Evaluation.{QueryEvaluation, IsEvaluation}
use view_server_smart.Stream.Follow.{IsSendable}
pub mod Session
pub mod Delta
pub mod Client
pub mod Journal
pub mod Health
pub mod Storage
pub mod Registry
pub mod Scan
pub mod Groups
pub mod Ranges
pub mod Index
pub mod Spans

-- Four rows, then three: the second row has changed and moved, the last has gone.
abbrev pub first_window : List (ℕ × ℕ)
first_window = (1, 10) ∷ (2, 20) ∷ (3, 30) ∷ (4, 40) ∷ []

abbrev pub second_window : List (ℕ × ℕ)
second_window = (1, 10) ∷ (3, 30) ∷ (2, 21) ∷ []

abbrev pub evaluation_of : List (ℕ × ℕ) → ℕ → ℕ → QueryEvaluation ℕ ℕ
evaluation_of window total version = record {
  rows = rows_of window;
  keys = keys_of window;
  window = window;
  total_rows = total;
  version = version;
}

abbrev pub same_row : ℕ → ℕ → Bool
same_row a b = a == b

pub same_row_trans : (a b c : ℕ) → same_row a b ≡ true → same_row b c ≡ true → same_row a c ≡ true
same_row_trans a b c p q = ground arith

abbrev pub first : QueryEvaluation ℕ ℕ
first = evaluation_of first_window 9 1

abbrev pub second : QueryEvaluation ℕ ℕ
second = evaluation_of second_window 8 2

abbrev pub third : QueryEvaluation ℕ ℕ
third = evaluation_of second_window 8 5

pub first-IsEvaluation : IsEvaluation ℕ_discrete first
unfolding ℕ_discrete
first-IsEvaluation = record {
  rows = refl;
  keys = refl;
  distinct = (refl, (refl, (refl, (refl, tt))));
}

pub second-IsEvaluation : IsEvaluation ℕ_discrete second
unfolding ℕ_discrete
second-IsEvaluation = record { rows = refl; keys = refl; distinct = (refl, (refl, (refl, tt))) }

pub first-IsSendable : IsSendable ℕ_discrete same_row first
first-IsSendable = record {
  evaluation = first-IsEvaluation;
  version = omega arith;
  total = omega arith;
  window = omega arith;
  size = omega arith;
}

pub second-IsSendable : IsSendable ℕ_discrete same_row second
second-IsSendable = record {
  evaluation = second-IsEvaluation;
  version = omega arith;
  total = omega arith;
  window = omega arith;
  size = omega arith;
}

pub third-IsSendable : IsSendable ℕ_discrete same_row third
third-IsSendable = record {
  evaluation = record { rows = refl; keys = refl; distinct = second-IsEvaluation.distinct };
  version = omega arith;
  total = omega arith;
  window = omega arith;
  size = omega arith;
}
