-- ===== src/Types/EngineeringUnits.antt =====
-- types.go: `EngineeringUnits`: its constants that have a name, and its `String` method.
use bacnet_go.Base.{ℕ, [], ◌∷◌}
use bacnet_go.Enumeration.{Enumeration}

abbrev milliamperes : ℕ
milliamperes = 2

abbrev amperes : ℕ
amperes = 3

abbrev volts : ℕ
volts = 5

abbrev kilowatt_hours : ℕ
kilowatt_hours = 19

abbrev hertz : ℕ
hertz = 27

abbrev percent_relative_humidity : ℕ
percent_relative_humidity = 29

abbrev millimeters : ℕ
millimeters = 30

abbrev meters : ℕ
meters = 31

abbrev inches : ℕ
inches = 32

abbrev feet : ℕ
feet = 33

abbrev watts : ℕ
watts = 41

abbrev kilowatts : ℕ
kilowatts = 42

abbrev megawatts : ℕ
megawatts = 43

abbrev pascals : ℕ
pascals = 47

abbrev kilopascals : ℕ
kilopascals = 48

abbrev bars : ℕ
bars = 49

abbrev degrees_celsius : ℕ
degrees_celsius = 62

abbrev degrees_kelvin : ℕ
degrees_kelvin = 63

abbrev degrees_fahrenheit : ℕ
degrees_fahrenheit = 64

abbrev days : ℕ
days = 70

abbrev hours : ℕ
hours = 71

abbrev minutes : ℕ
minutes = 72

abbrev seconds : ℕ
seconds = 73

abbrev meters_per_second : ℕ
meters_per_second = 74

abbrev cubic_meters : ℕ
cubic_meters = 80

abbrev liters : ℕ
liters = 82

abbrev liters_per_second : ℕ
liters_per_second = 87

abbrev liters_per_minute : ℕ
liters_per_minute = 88

abbrev no_units : ℕ
no_units = 95

abbrev percent : ℕ
percent = 98

-- `(EngineeringUnits).String`
abbrev pub engineering_units : Enumeration
engineering_units = record {
  word = "units";
  names =
      (degrees_celsius, "°C")
      ∷ (degrees_fahrenheit, "°F")
      ∷ (degrees_kelvin, "K")
      ∷ (percent, "%")
      ∷ (percent_relative_humidity, "%RH")
      ∷ (meters, "m")
      ∷ (feet, "ft")
      ∷ (millimeters, "mm")
      ∷ (inches, "in")
      ∷ (volts, "V")
      ∷ (amperes, "A")
      ∷ (milliamperes, "mA")
      ∷ (watts, "W")
      ∷ (kilowatts, "kW")
      ∷ (megawatts, "MW")
      ∷ (kilowatt_hours, "kWh")
      ∷ (hertz, "Hz")
      ∷ (pascals, "Pa")
      ∷ (kilopascals, "kPa")
      ∷ (bars, "bar")
      ∷ (liters, "L")
      ∷ (cubic_meters, "m³")
      ∷ (liters_per_second, "L/s")
      ∷ (liters_per_minute, "L/min")
      ∷ (meters_per_second, "m/s")
      ∷ (seconds, "s")
      ∷ (minutes, "min")
      ∷ (hours, "h")
      ∷ (days, "d")
      ∷ (no_units, "")
      ∷ [];
}
