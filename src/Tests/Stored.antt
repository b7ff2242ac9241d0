-- ===== src/Tests/Stored.antt =====
-- The storage on disk: requests, and two calls at a time.
use creeper_url_shortening_w.Crud.Throws.{Throws}
use creeper_url_shortening_w.Prelude.Assoc.{insert}
use creeper_url_shortening_w.Prelude.Integer.{pos}
use creeper_url_shortening_w.Prelude.Stoi.{stoi, int_to_string}
use creeper_url_shortening_w.Prelude.Text.{Bytes, codes, str_eq}
use creeper_url_shortening_w.Prelude.{◌≡◌, refl, true, [], some}
use creeper_url_shortening_w.Storage.Disk.{is_name}
use creeper_url_shortening_w.Storage.Real.{max_of, retrieve}
use creeper_url_shortening_w.Storage.Real.Races.{create_both}
use creeper_url_shortening_w.Storage.Real.Races.Lost.{create_both-retrieve}
use creeper_url_shortening_w.Storage.Sim.{larger, next_id}
use creeper_url_shortening_w.Prelude.Decimal.{dec}
use creeper_url_shortening_w.Tests.Disks.{Files, disk, change, keys, new_disk, new_disk-IsValid}

abbrev shoes : Bytes
shoes = codes "Shoes"

abbrev once : Files
once = change new_disk shoes (insert (codes "1") (codes "{}") [])

abbrev twice : Files
twice = change once shoes (insert (codes "1") (codes "[]") (once shoes))

raced :
    create_both disk shoes (codes "{}") (codes "[]") new_disk
    ≡ some (twice, some (pos 1), some (pos 1))
unfolding create_both max_of next_id larger keys stoi int_to_string dec insert
raced = refl

shoes-is_name : is_name shoes ≡ true
unfolding is_name str_eq
shoes-is_name = refl

create_both-retrieve_example :
    (pos 1 ≡ pos 1) × (retrieve disk twice shoes (pos 1) ≡ some (codes "[]"))
create_both-retrieve_example =
    create_both-retrieve disk shoes (codes "{}") (codes "[]") new_disk twice (pos 1) (pos 1)
      new_disk-IsValid shoes-is_name raced
