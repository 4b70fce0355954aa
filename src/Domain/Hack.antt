-- ===== src/Domain/Hack.antt =====
-- internal/domain/model.go: the hacking aggregate and its public projection.
use fallout_terminal.Common.{ℕ, ℤ, Bool, List, Bytes, Dict}

pub record HackWord : Type 0 where
  pub id : Bytes
  pub start : ℕ
  pub length : ℕ

pub record HackColumn : Type 0 where
  pub addresses : List Bytes
  pub text : Bytes
  pub words : List HackWord

pub record HackCandidate : Type 0 where
  pub text : Bytes

pub record HackPatternIdentity : Type 0 where
  pub generation_id : Bytes
  pub row : ℕ
  pub start : ℕ
  pub end : ℕ

pub record HackPattern : Type 0 where
  pub identity : HackPatternIdentity
  pub column_index : ℕ
  pub absolute_start : ℕ
  pub absolute_end : ℕ
  pub pair : Bytes

pub record PublicHackPattern : Type 0 where
  pub id : Bytes
  pub row : ℕ
  pub start : ℕ
  pub end : ℕ
  pub used : Bool

-- The set `UsedPatterns` is the list of the identities put in.
pub record HackState : Type 0 where
  pub generation_id : Bytes
  pub level : ℤ
  pub word_length : ℕ
  pub attempts_max : ℕ
  pub attempts_left : ℕ
  pub secret_word : Bytes
  pub words_by_id : Dict HackCandidate
  pub used_patterns : List HackPatternIdentity
  pub solved : Bool
  pub failed : Bool
  pub log : List Bytes
  pub columns : List HackColumn

pub record PublicHackState : Type 0 where
  pub level : ℤ
  pub word_length : ℕ
  pub attempts_max : ℕ
  pub attempts_left : ℕ
  pub solved : Bool
  pub failed : Bool
  pub log : List Bytes
  pub columns : List HackColumn
  pub patterns : List PublicHackPattern
