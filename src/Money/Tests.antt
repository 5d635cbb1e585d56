-- ===== src/Money/Tests.antt =====
-- One amount, written and read.
use pstu_final.Base.{◌≡◌, arith}
use pstu_final.Base.Int.{pos, negsuc}
use pstu_final.Money.Format.{format_bdt, format_minor_amount, format_minor_units}
use pstu_final.Money.Parse.{parse_bdt_to_minor, parsed}
use pstu_final.Money.Grouping.{format_bdt-format_minor_units}
use pstu_final.Money.RoundTrip.{parse_bdt_to_minor-format_minor_amount}

parse_bdt_to_minor-format_minor_amount_example :
    parse_bdt_to_minor (format_minor_amount (pos 123_456_705)) ≡ parsed 123_456_705
parse_bdt_to_minor-format_minor_amount_example =
    parse_bdt_to_minor-format_minor_amount 123_456_705 (omega arith) (omega arith)

format_bdt-format_minor_units_example :
    format_bdt (negsuc 123_456_704) ≡ format_minor_units (negsuc 123_456_704) "BDT"
format_bdt-format_minor_units_example = format_bdt-format_minor_units (negsuc 123_456_704)
