-- ===== src/Strings.antt =====
-- utils/string.c: strings in memory, which end with a 0. A loop over a string takes fuel for its
-- rounds, since nothing but the string bounds it.
pub mod Holds
pub mod Length
pub mod Compare
pub mod Copy
mod Tests
use panda_os.Base.{
  ℕ, zero, suc, ◌+◌, Bool, ◌&&◌, ◌||◌, not, ◌==◌, if◌then◌else◌, Outcome, ok, out_of_fuel,
}
use panda_os.Base.Memory.{Memory, load8, store8}

-- `while (*src++) i++;`
length_loop : (fuel src i : ℕ) → Memory → Outcome ℕ
length_loop zero src i m = out_of_fuel
length_loop (suc fuel) src i m =
    let rest = length_loop fuel (src + 1) (i + 1) m in if load8 src m == 0 then ok i else rest

unfoldable pub strlen : (fuel src : ℕ) → Memory → Outcome ℕ
unfolding length_loop
strlen fuel src m = length_loop fuel src 0 m

-- What `strcmp` returns when its loop has ended at index i, with `failed` or without.
compared : (str1 str2 i failed : ℕ) → Memory → ℕ
compared str1 str2 i failed m =
    let c1 = load8 (str1 + i) m in
    let c2 = load8 (str2 + i) m in
    if (c1 == 0 && not (c2 == 0)) || (not (c1 == 0) && c2 == 0) then 1 else failed

compare_from : (fuel str1 str2 i : ℕ) → Memory → Outcome ℕ
unfolding compared
compare_from zero str1 str2 i m = out_of_fuel
compare_from (suc fuel) str1 str2 i m =
    let c1 = load8 (str1 + i) m in
    let c2 = load8 (str2 + i) m in
    let rest = compare_from fuel str1 str2 (i + 1) m in
    if not (c1 == 0) && not (c2 == 0)
    then (if c1 == c2 then rest else ok (compared str1 str2 i 1 m))
    else ok (compared str1 str2 i 0 m)

unfoldable pub strcmp : (fuel str1 str2 : ℕ) → Memory → Outcome ℕ
unfolding compare_from
strcmp fuel str1 str2 m = compare_from fuel str1 str2 0 m

-- `do { *dest++ = *src++; } while (*src != 0);`: the test comes after the first byte.
unfoldable pub strcpy : (fuel dest src : ℕ) → Memory → Outcome Memory
strcpy zero dest src m = out_of_fuel
strcpy (suc fuel) dest src m =
    let m' = store8 dest (load8 src m) m in
    let rest = strcpy fuel (dest + 1) (src + 1) m' in
    if load8 (src + 1) m' == 0 then ok m' else rest
