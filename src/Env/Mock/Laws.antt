-- ===== src/Env/Mock/Laws.antt =====
-- `MockEnvironment` is a queue of typed values, and `output_env` hands on all that was written.
use clementine_citeria.Common.{
  ℕ, ◌+◌, ◌^◌, ◌<◌, ◌≤◌, ◌≡◌, refl, sym, ap, ◌∙◌, arith, List, [], ◌∷◌, ◌++◌, append_assoc,
  append-nil, map, some, length, length-append, All, take, drop, ge→ltb,
}
use clementine_citeria.Common.Bytes.{Bytes}
use clementine_citeria.Common.Words.{
  to_le_bytes, from_le_bytes, from_le_bytes-to_le_bytes, length-to_le_bytes,
}
use clementine_citeria.Env.{Prog, pure, ◌>>=◌, bind-run, for_each}
use clementine_citeria.Env.Tape.{Item, bytes32, u32, u64, i32, IsItem, IsTape}
use clementine_citeria.Env.Mock.{
  MockData, write_global, read_global, read_number, mock_environment, output_item, slice?,
  reset_mock_env, output_from, output_env,
}

unfoldable pub encode : Item → Bytes
encode (bytes32 b) = b
encode (u32 n) = to_le_bytes 4 n
encode (u64 n) = to_le_bytes 8 n
encode (i32 n) = to_le_bytes 4 n

abbrev tag : Item → ℕ
tag (bytes32 b) = 0
tag (u32 n) = 1
tag (u64 n) = 2
tag (i32 n) = 3

unfoldable pub encode_all : List Item → Bytes
encode_all [] = []
encode_all (x ∷ xs) = encode x ++ encode_all xs

encode_all-append : (xs ys : List Item) → encode_all (xs ++ ys) ≡ encode_all xs ++ encode_all ys
unfolding encode_all
encode_all-append [] ys = refl
encode_all-append (x ∷ xs) ys =
    rw (encode_all-append xs ys) (sym (append_assoc (encode x) (encode_all xs) (encode_all ys)))

map-append' : (xs ys : List Item) → map tag (xs ++ ys) ≡ map tag xs ++ map tag ys
map-append' [] ys = refl
map-append' (x ∷ xs) ys = ap (λ t. tag x ∷ t) (map-append' xs ys)

-- The state after the values `past` were written and read, and `rest` written.
unfoldable pub laid : List Item → List Item → MockData
laid past rest = record {
  global_data = encode_all past ++ encode_all rest;
  global_data_types = map tag past ++ map tag rest;
  read_position = length (encode_all past);
}

take-drop_middle : (a b c : Bytes) → take (length b) (drop (length a) (a ++ (b ++ c))) ≡ b
take-drop_middle (x ∷ a) b c = take-drop_middle a b c
take-drop_middle [] [] c = refl
take-drop_middle [] (y ∷ b) c = ap (λ t. y ∷ t) (take-drop_middle [] b c)

read_global-next :
    (past rest : List Item) (x : Item) (count : ℕ)
    → length (encode x) ≡ count
    → read_global count (laid past (x ∷ rest)) ≡ some (encode x, laid (past ++ x ∷ []) rest)
unfolding read_global laid encode_all
read_global-next past rest x count e =
    let a : Bytes = encode_all past in
    let c : Bytes = encode_all rest in
    let b : Bytes = encode x in
    let fits : length a + length b ≤ length (a ++ (b ++ c)) =
      omega (arith, length-append {0} a (b ++ c), length-append {0} b c) in
    rw
      (
        ← e,
        ge→ltb _ _ fits,
        take-drop_middle a b c,
        encode_all-append past (x ∷ []),
        map-append' past (x ∷ []),
        append-nil,
      )
      (simp (append_assoc, length-append, append-nil))

read_number-next :
    (past rest : List Item) (x : Item) (n count : ℕ)
    → encode x ≡ to_le_bytes count n
    → n < 256 ^ count
    → read_number count (laid past (x ∷ rest)) ≡ some (n, laid (past ++ x ∷ []) rest)
unfolding read_number
read_number-next past rest x n count e h = rw (
  read_global-next past rest x count (rw e (length-to_le_bytes count n)),
  e,
  from_le_bytes-to_le_bytes count n h,
)

write_global-last :
    (past rest : List Item) (x : Item)
    → write_global (encode x) (tag x) (laid past rest) ≡ some (tt, laid past (rest ++ x ∷ []))
unfolding write_global laid encode_all
write_global-last past rest x =
    rw (encode_all-append rest (x ∷ []), map-append' rest (x ∷ []))
      (simp (append_assoc, append-nil))

-- The mock environment satisfies the contract of an environment.
instance pub mock_tape : IsTape mock_environment
unfolding encode
mock_tape = record {
  tape = laid;
  read_32bytes_next = λ past rest b h. read_global-next past rest (bytes32 b) 32 h.0;
  read_u32_next = λ past rest n h. read_number-next past rest (u32 n) n 4 refl (omega arith);
  read_u64_next = λ past rest n h. read_number-next past rest (u64 n) n 8 refl (omega arith);
  read_i32_next = λ past rest n h. read_number-next past rest (i32 n) n 4 refl (omega arith);
  write_32bytes_last = λ past rest b. write_global-last past rest (bytes32 b);
  write_u32_last = λ past rest n. write_global-last past rest (u32 n);
  write_u64_last = λ past rest n. write_global-last past rest (u64 n);
  write_i32_last = λ past rest n. write_global-last past rest (i32 n);
}

output_item-encode :
    (x : Item)
    → IsItem x
    → (w : ℕ) × (f : Bytes → Item) × (output_item (tag x) ≡ some (w, f))
      × (length (encode x) ≡ w)
      × (f (encode x) ≡ x)
unfolding output_item encode
output_item-encode (bytes32 b) h = (32, bytes32, refl, h.0, refl)
output_item-encode (u32 n) h = (
  4,
  λ b. u32 (from_le_bytes b),
  refl,
  length-to_le_bytes 4 n,
  ap u32 (from_le_bytes-to_le_bytes 4 n (omega arith)),
)
output_item-encode (u64 n) h = (
  8,
  λ b. u64 (from_le_bytes b),
  refl,
  length-to_le_bytes 8 n,
  ap u64 (from_le_bytes-to_le_bytes 8 n (omega arith)),
)
output_item-encode (i32 n) h = (
  4,
  λ b. i32 (from_le_bytes b),
  refl,
  length-to_le_bytes 4 n,
  ap i32 (from_le_bytes-to_le_bytes 4 n (omega arith)),
)

slice?-middle : (a b c : Bytes) → slice? (length a) (length b) (a ++ (b ++ c)) ≡ some b
unfolding slice?
slice?-middle a b c =
    let fits : length a + length b ≤ length (a ++ (b ++ c)) =
      omega (arith, length-append {0} a (b ++ c), length-append {0} b c) in
    rw (ge→ltb _ _ fits, take-drop_middle a b c)

output_from-encode :
    (xs : List Item) (a : Bytes)
    → All IsItem xs
    → output_from (map tag xs) (length a) (a ++ encode_all xs) ≡ some xs
unfolding output_from encode_all
output_from-encode [] a h = refl
output_from-encode (x ∷ xs) a (hx, h) =
    let (w, f, item, len, value) = output_item-encode x hx in
    let rest = rw (length-append, append_assoc) at (output_from-encode xs (a ++ encode x) h) in
    rw (item, ← len, slice?-middle a (encode x) (encode_all xs), rest, value)

-- Whatever has been read since, `output_env` passes on the values of the layout, in order.
output_env-laid :
    (past rest : List Item)
    → All IsItem (past ++ rest)
    → output_env (laid past rest) ≡ some (past ++ rest)
unfolding output_env laid
output_env-laid past rest h =
    rw (← encode_all-append past rest, ← map-append' past rest)
      (output_from-encode (past ++ rest) [] h)

-- `MockEnvironment`'s write of a value, and its read of a value of the same type.
abbrev pub write_item : Item → Prog (Unit {0})
write_item (bytes32 b) = mock_environment.write_32bytes b
write_item (u32 n) = mock_environment.write_u32 n
write_item (u64 n) = mock_environment.write_u64 n
write_item (i32 n) = mock_environment.write_i32 n

abbrev pub read_item : Item → Prog Item
read_item (bytes32 b) = mock_environment.read_32bytes >>= λ v. pure (bytes32 v)
read_item (u32 n) = mock_environment.read_u32 >>= λ v. pure (u32 v)
read_item (u64 n) = mock_environment.read_u64 >>= λ v. pure (u64 v)
read_item (i32 n) = mock_environment.read_i32 >>= λ v. pure (i32 v)

-- The reads of the types of some values, one after the other.
abbrev pub read_items : List Item → Prog (List Item)
read_items [] = pure []
read_items (x ∷ xs) = read_item x >>= λ v. read_items xs >>= λ vs. pure (v ∷ vs)

write_item-last :
    (past rest : List Item) (x : Item)
    → write_item x (laid past rest) ≡ some (tt, laid past (rest ++ x ∷ []))
unfolding encode
write_item-last past rest (bytes32 b) = write_global-last past rest (bytes32 b)
write_item-last past rest (u32 n) = write_global-last past rest (u32 n)
write_item-last past rest (u64 n) = write_global-last past rest (u64 n)
write_item-last past rest (i32 n) = write_global-last past rest (i32 n)

write_items-laid :
    (past rest xs : List Item)
    → for_each xs write_item (laid past rest) ≡ some (tt, laid past (rest ++ xs))
unfolding for_each
write_items-laid past rest [] = rw append-nil
write_items-laid past rest (x ∷ xs) =
    bind-run (write_item x) (λ _. for_each xs write_item) (laid past rest)
      (write_item-last past rest x)
    ∙ rw (append_assoc rest (x ∷ []) xs) at (write_items-laid past (rest ++ x ∷ []) xs)

read_item-next :
    (past rest : List Item) (x : Item)
    → IsItem x
    → read_item x (laid past (x ∷ rest)) ≡ some (x, laid (past ++ x ∷ []) rest)
unfolding encode
read_item-next past rest (bytes32 b) h =
    bind-run mock_environment.read_32bytes _ _ (read_global-next past rest (bytes32 b) 32 h.0)
read_item-next past rest (u32 n) h =
    bind-run mock_environment.read_u32 _ _
      (read_number-next past rest (u32 n) n 4 refl (omega arith))
read_item-next past rest (u64 n) h =
    bind-run mock_environment.read_u64 _ _
      (read_number-next past rest (u64 n) n 8 refl (omega arith))
read_item-next past rest (i32 n) h =
    bind-run mock_environment.read_i32 _ _
      (read_number-next past rest (i32 n) n 4 refl (omega arith))

read_items-laid :
    (past xs rest : List Item)
    → All IsItem xs
    → read_items xs (laid past (xs ++ rest)) ≡ some (xs, laid (past ++ xs) rest)
read_items-laid past [] rest h = rw append-nil
read_items-laid past (x ∷ xs) rest (hx, h) =
    bind-run (read_item x) (λ v. read_items xs >>= λ vs. pure (v ∷ vs))
      (laid past (x ∷ (xs ++ rest))) (read_item-next past (xs ++ rest) x hx)
    ∙ bind-run (read_items xs) (λ vs. pure (x ∷ vs)) (laid (past ++ x ∷ []) (xs ++ rest))
        (rw (append_assoc past (x ∷ []) xs) at (read_items-laid (past ++ x ∷ []) xs rest h))

-- After a reset the mock environment takes any values, and gives the first of them back in order to
-- reads of their types; before and after these reads `output_env` passes on all that was written, in
-- order.
pub output_env-written :
    (m : MockData) (xs ys : List Item)
    → All IsItem xs
    → All IsItem (xs ++ ys)
    → (s : MockData) × (s' : MockData) × (for_each (xs ++ ys) write_item (reset_mock_env m)
        ≡ some (tt, s))
      × (read_items xs s ≡ some (xs, s'))
      × (output_env s ≡ some (xs ++ ys))
      × (output_env s' ≡ some (xs ++ ys))
output_env-written m xs ys h all = (
  laid [] (xs ++ ys),
  laid xs ys,
  rw (← empty) at (write_items-laid [] [] (xs ++ ys)),
  read_items-laid [] xs ys h,
  output_env-laid [] (xs ++ ys) all,
  output_env-laid xs ys all,
)
  where
    empty : reset_mock_env m ≡ laid [] []
    empty = unfold reset_mock_env in unfold laid in unfold encode_all in refl
