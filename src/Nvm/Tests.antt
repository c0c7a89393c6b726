-- ===== src/Nvm/Tests.antt =====
-- Stored numbers, and the theorems at them.
use schc_work.Common.{
  ◌≡◌, refl, ◌⊎◌, ℕ, zero, suc, true, false, none, some, [], ◌∷◌, IsBytes, length, replicate, arith,
  length-replicate, ◌==◌,
}
use schc_work.Rules.{ascii}
use schc_work.Oscore.{ok, oscore_ssn_overflow}
use schc_work.Nvm.Stdio.{digits, print_lu}
use schc_work.Nvm.Key.{IsStack, IsSmall}
use schc_work.Nvm.{
  ByteArray, NvmKey, Stack, Storage, nvm_key_equals, decode_arrays, nvm_write_ssn, nvm_read_ssn,
}
use schc_work.Nvm.RoundTrip.{nvm_read_ssn-write_ssn, nvm_read_ssn_first, nvm_read_ssn-total}

abbrev stack : Stack
stack = record { padding = replicate 4 0; array = λ n. replicate n 0xCC }

filled-IsBytes : (n : ℕ) → IsBytes (replicate n 0xCC)
filled-IsBytes zero = tt
filled-IsBytes (suc n) = (omega arith, filled-IsBytes n)

stack-IsStack : IsStack stack
stack-IsStack = record {
  padding_length = refl;
  padding_bytes = omega arith;
  array_length = λ n. length-replicate n 0xCC;
  array_bytes = filled-IsBytes;
}

abbrev id : ℕ → ByteArray
id n = record { len = 1; ptr = replicate 8 0x7F; content = n ∷ [] }

abbrev alice : NvmKey
alice = record { sender_id = id 1; recipient_id = id 2; id_context = id 3 }

-- The key of the other side.
abbrev bob : NvmKey
bob = record { sender_id = id 2; recipient_id = id 1; id_context = id 3 }

alice-IsSmall : IsSmall alice
alice-IsSmall = record {
  sender_len = omega arith;
  recipient_len = omega arith;
  context_len = omega arith;
  sender_ptr = (refl, omega arith);
  recipient_ptr = (refl, omega arith);
  context_ptr = (refl, omega arith);
}

abbrev empty : Storage
empty = record { file = none; readable = true; writable = true }

abbrev over : ℕ → ℕ
over n = 0xFFFFFFFF

prints : print_lu 1205 ≡ ascii "1205"
unfolding print_lu digits
prints = refl

differ : nvm_key_equals (λ a b. length a.content == length b.content) alice bob ≡ true
unfolding nvm_key_equals
differ = refl

decodes : decode_arrays (id 1 ∷ []) (1 ∷ 0 ∷ 0 ∷ 0 ∷ 9 ∷ []) 5 ≡ some ok
unfolding decode_arrays
decodes = refl

nvm_read_ssn-write_ssn_example :
    (nvm' : Storage) × (nvm_write_ssn stack alice 1205 empty ≡ some (ok, nvm'))
    × (nvm_read_ssn over stack bob nvm' ≡ some (ok, some 1205, nvm'))
nvm_read_ssn-write_ssn_example =
    nvm_read_ssn-write_ssn over stack stack alice bob 1205 empty stack-IsStack alice-IsSmall refl
      refl (omega arith)

nvm_read_ssn_first_example :
    ((true ≡ true)
      × ((nvm' : Storage) × (nvm_read_ssn over stack alice empty ≡ some (ok, some 0, nvm'))
          × (nvm_read_ssn over stack bob nvm' ≡ some (ok, some 0, nvm'))))
    ⊎ ((true ≡ false)
        × (nvm_read_ssn over stack alice empty ≡ some (oscore_ssn_overflow, some 0, empty)))
nvm_read_ssn_first_example =
    nvm_read_ssn_first over stack stack alice bob empty stack-IsStack alice-IsSmall refl refl

abbrev broken : Storage
broken = record { file = some (ascii "OSCORE_SSN=x"); readable = true; writable = true }

nvm_read_ssn-total_example :
    (nvm_read_ssn over stack alice broken ≡ some (oscore_ssn_overflow, none, broken))
    ⊎ ((n : ℕ) × (nvm_read_ssn over stack alice broken ≡ some (ok, some n, broken)))
nvm_read_ssn-total_example =
    nvm_read_ssn-total over stack alice broken (ascii "OSCORE_SSN=x") refl refl
