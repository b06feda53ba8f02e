-- ===== src/Tests/Pages.antt =====
-- A record that is inserted into an empty page.
use pageforge.Prelude.{ℕ, ◌≤◌, ◌≡◌, arith, [], ◌∷◌, length, ok}
use pageforge.Bytes.{Bytes}
use pageforge.Page.Fields.{read_u16, read_u32}
use pageforge.Page.Checksum.{checksum, update_checksum}
use pageforge.Page.Checksum.Sealed.{update_checksum-IsSealed}
use pageforge.Page.Invariant.{IsFormed}
use pageforge.Page.Records.{initialize, insert, free_space}
use pageforge.Page.Records.Initialize.{initialize-IsFormed}
use pageforge.Page.Records.Insert.{Inserted, insert-Inserted}

abbrev payload : Bytes
payload = 1 ∷ 2 ∷ 3 ∷ []

abbrev page : Bytes
page = initialize 7

page-IsFormed : IsFormed page
page-IsFormed = (initialize-IsFormed 7).0

page-free_space : 9 ≤ free_space page
unfolding free_space
page-free_space = let (formed, start, end) = initialize-IsFormed 7 in omega arith

page-length : 24 ≤ length page
unfolding IsFormed
page-length = let size = page-IsFormed.0 in omega arith

update_checksum-IsSealed_example :
    read_u32 (update_checksum page) 20 ≡ checksum (update_checksum page)
update_checksum-IsSealed_example = update_checksum-IsSealed page page-length

initialize-IsFormed_example : IsFormed page × (read_u16 page 14 ≡ 24) × (read_u16 page 16 ≡ 4096)
initialize-IsFormed_example = initialize-IsFormed 7

insert-Inserted_example :
    (t : ℕ) × ((insert payload page).0 ≡ ok t) × Inserted payload page t (insert payload page).1
insert-Inserted_example = insert-Inserted payload page page-IsFormed (omega arith) page-free_space
