-- ===== src/Gateway/SlashTokens.antt =====
-- The token of a page of one directory (paginate_slash of src/core/listing.rs).
use hdfs_s3_gateway.Prelude.{
  ℕ, zero, suc, ◌≡◌, refl, sym, Bool, true, false, Bytes, ◌==◌, if◌then◌else◌, Option, none, List,
  [], ◌∷◌, drop, arith,
}
use hdfs_s3_gateway.Listing.{ListEntry}
use hdfs_s3_gateway.Listing.Paginate.{Page}
use hdfs_s3_gateway.Listing.Slash.{
  Taken, slash_turn, slash_loop, skip_files, skip_dirs, file_start, dir_start, paginate_slash,
  push_file, push_dir, whole_page, truncated_page,
}
use hdfs_s3_gateway.Gateway.Listings.{is_some}

-- A page is truncated exactly when it has a token.
abbrev pub HasToken : Page → Type 0
HasToken p = p.is_truncated ≡ is_some p.next_token

abbrev pub empty_page : Page
empty_page = record { contents = []; common_prefixes = []; is_truncated = false; next_token = none }

abbrev none_taken : Taken
none_taken = record { contents = []; common_prefixes = []; last_key = none }

pub if-HasToken : (b : Bool) (p q : Page) → HasToken p → HasToken q → HasToken (if b then p else q)
if-HasToken true p q hp hq = hp
if-HasToken false p q hp hq = hq

turn_marked :
    (prefix : Bytes) (left : ℕ) (files : List ListEntry) (dirs : List Bytes) (t : Taken)
    → is_some t.last_key ≡ true
    → HasToken (slash_turn prefix left files dirs t)
unfolding slash_turn whole_page truncated_page push_file push_dir
turn_marked prefix zero [] [] t h = refl
turn_marked prefix (suc left) [] [] t h = refl
turn_marked prefix zero (f ∷ files) dirs t h = sym h
turn_marked prefix zero [] (d ∷ dirs) t h = sym h
turn_marked prefix (suc left) (f ∷ files) [] t h =
    turn_marked prefix left (skip_files prefix files) [] (push_file t f) refl
turn_marked prefix (suc left) [] (d ∷ dirs) t h =
    turn_marked prefix left [] (skip_dirs prefix dirs) (push_dir t d) refl
turn_marked prefix (suc left) (f ∷ files) (d ∷ dirs) t h = ground (
  arith,
  turn_marked prefix left (skip_files prefix files) (skip_dirs prefix (d ∷ dirs)) (push_file t f)
      refl,
  turn_marked prefix left (skip_files prefix (f ∷ files)) (skip_dirs prefix dirs) (push_dir t d)
      refl,
)

first_turn :
    (prefix : Bytes) (left : ℕ) (files : List ListEntry) (dirs : List Bytes) (t : Taken)
    → HasToken (slash_turn prefix (suc left) files dirs t)
unfolding slash_turn whole_page push_file push_dir
first_turn prefix left [] [] t = refl
first_turn prefix left (f ∷ files) [] t =
    turn_marked prefix left (skip_files prefix files) [] (push_file t f) refl
first_turn prefix left [] (d ∷ dirs) t =
    turn_marked prefix left [] (skip_dirs prefix dirs) (push_dir t d) refl
first_turn prefix left (f ∷ files) (d ∷ dirs) t = ground (
  arith,
  turn_marked prefix left (skip_files prefix files) (skip_dirs prefix (d ∷ dirs)) (push_file t f)
      refl,
  turn_marked prefix left (skip_files prefix (f ∷ files)) (skip_dirs prefix dirs) (push_dir t d)
      refl,
)

pub paginate_slash-HasToken :
    (files : List ListEntry) (dirs : List Bytes) (prefix : Bytes) (marker : Option Bytes)
    (max_keys : ℕ)
    → HasToken (paginate_slash files dirs prefix marker max_keys)
unfolding paginate_slash slash_loop
paginate_slash-HasToken files dirs prefix marker zero = refl
paginate_slash-HasToken files dirs prefix marker (suc n) =
    let fs = skip_files prefix (drop (file_start files prefix marker) files) in
    let ds = skip_dirs prefix (drop (dir_start dirs prefix marker) dirs) in
    if-HasToken (suc n == 0) empty_page (slash_turn prefix (suc n) fs ds none_taken) refl
      (first_turn prefix n fs ds none_taken)
